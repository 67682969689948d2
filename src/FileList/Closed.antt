-- ===== src/FileList/Closed.antt =====
-- recording_probe.py: what the transaction promises, whatever the camera answers.
use ha_reolink_battery.Base.{
  ℕ, zero, suc, ◌+◌, ◌≤◌, String, ◌≡◌, refl, sym, ◌∙◌, ap, subst, Bool, true, false, Option, none,
  some, List, [], ◌∷◌, ◌++◌, arith, if◌then◌else◌, contains, contains-append, Distinct,
  Distinct-append, ℤ,
}
use ha_reolink_battery.Match.{RecordingMetadata}
use ha_reolink_battery.FileList.{
  Answer, FileInfoTrace, OpenReply, Page, Reply, Scan, listed, error, answered, refused, unparsable,
  page, Turn, again, last, fails, follow, read_page, add_files, answer_of, ask_page, close_list,
  count_page, fresh_trace, get_pages, list_recordings_file_info, note_page, after_reply, open_list,
  read_list, with_handle,
}

abbrev pub names : List RecordingMetadata → List String
names [] = []
names (r ∷ rs) = r.file_name ∷ names rs

names-append : (rs ss : List RecordingMetadata) → names (rs ++ ss) ≡ names rs ++ names ss
names-append [] ss = refl
names-append (r ∷ rs) ss = ap (λ xs. r.file_name ∷ xs) (names-append rs ss)

-- The names are distinct and those that were seen, and `n` pages at most were read.
record IsScan (n : ℕ) (s : Scan) : Type 0 where
  pub distinct : Distinct (names s.recordings)
  pub seen : (x : String) → contains x (names s.recordings) ≡ contains x s.seen_names
  pub few : s.trace.get_pages_succeeded ≤ n
  pub opened : s.trace.handle_present ≡ true

IsScan-if :
    (b : Bool) (n : ℕ) (s t : Scan)
    → IsScan n s
    → (b ≡ false → IsScan n t)
    → IsScan n (if b then s else t)
IsScan-if true n s t h k = h
IsScan-if false n s t h k = k refl

add_file-IsScan :
    (r : RecordingMetadata) (n : ℕ) (s : Scan)
    → IsScan n s
    → contains r.file_name s.seen_names ≡ false
    → IsScan n
        (record s { recordings = s.recordings ++ r ∷ []; seen_names = r.file_name ∷ s.seen_names })
unfolding contains
add_file-IsScan r n s h fresh = record {
  distinct =
      subst Distinct (sym (names-append s.recordings (r ∷ [])))
        (Distinct-append r.file_name (names s.recordings) h.distinct (h.seen r.file_name ∙ fresh));
  seen = λ x.
      ap (contains x) (names-append s.recordings (r ∷ []))
      ∙ ground (arith, contains-append x (names s.recordings) (r.file_name ∷ []), h.seen x);
  few = h.few;
  opened = h.opened;
}

add_files-IsScan :
    (rs : List RecordingMetadata) (n : ℕ) (s : Scan) → IsScan n s → IsScan n (add_files rs s)
unfolding add_files
add_files-IsScan [] n s h = h
add_files-IsScan (r ∷ rs) n s h =
    add_files-IsScan rs n _
      (IsScan-if (contains r.file_name s.seen_names) n s _ h (add_file-IsScan r n s h))

IsScan-more : (n : ℕ) (s : Scan) → IsScan n s → IsScan (suc n) s
IsScan-more n s h = record {
  distinct = h.distinct;
  seen = h.seen;
  few = omega (arith, h.few);
  opened = h.opened;
}

read_page-IsScan :
    (i n : ℕ) (reply : Reply Page) (s : Scan) → IsScan n s → IsScan (suc n) (read_page i reply s).0
unfolding read_page ask_page count_page note_page
read_page-IsScan i n (refused kind code) s h = record {
  distinct = h.distinct;
  seen = h.seen;
  few = omega (arith, h.few);
  opened = h.opened;
}
read_page-IsScan i n (answered unparsable) s h = record {
  distinct = h.distinct;
  seen = h.seen;
  few = omega (arith, h.few);
  opened = h.opened;
}
read_page-IsScan i n (answered (page files finished)) s h =
    add_files-IsScan files (suc n) _ (record {
      distinct = h.distinct;
      seen = h.seen;
      few = omega (arith, h.few);
      opened = h.opened;
    })

abbrev Scanned : ℕ → Scan × Option String → Type 0
Scanned n x = IsScan n x.0

Scanned-follow :
    (turn : Turn) (n : ℕ) (s : Scan) (rest : Scan × Option String)
    → IsScan n s
    → Scanned n rest
    → Scanned n (follow turn s rest)
unfolding follow
Scanned-follow again n s rest h k = k
Scanned-follow last n s rest h k = h
Scanned-follow (fails stage) n s rest h k = h

IsScan-le : (n m : ℕ) (s : Scan) → n ≤ m → IsScan n s → IsScan m s
IsScan-le n m s le h = record {
  distinct = h.distinct;
  seen = h.seen;
  few = omega (arith, le, h.few);
  opened = h.opened;
}

Scanned-get_pages :
    (left i n : ℕ) (replies : ℕ → Reply Page) (s : Scan)
    → IsScan n s
    → Scanned (left + n) (get_pages left i replies s)
unfolding get_pages
Scanned-get_pages zero i n replies s h = IsScan-le n (0 + n) s (omega arith) h
Scanned-get_pages (suc left) i n replies s h =
    let (s', turn) = read_page i (replies i) s in
    let read = read_page-IsScan i n (replies i) s h in
    let rest = get_pages left (i + 1) replies s' in
    Scanned-follow turn (suc left + n) s' rest
      (IsScan-le (suc n) (suc left + n) s' (omega arith) read)
      (IsScan-le (left + suc n) (suc left + n) rest.0 (omega arith)
        (Scanned-get_pages left (i + 1) (suc n) replies s' read))

-- No file name twice in the list.
abbrev pub Clean : Answer → Type 0
Clean (listed rs) = Distinct (names rs)
Clean (error stage) = Unit

-- The list is closed exactly if it was opened, after ten pages at most, and no name is there twice.
pub record IsClosed (r : FileInfoTrace × Answer) : Type 0 where
  pub closed : r.0.close_attempted ≡ r.0.handle_present
  pub few : r.0.get_pages_succeeded ≤ 10
  pub clean : Clean r.1

Clean-answer_of : (n : ℕ) (x : Scan × Option String) → Scanned n x → Clean (answer_of x)
Clean-answer_of n (s, none) h = h.distinct
Clean-answer_of n (s, some stage) h = tt

close_list-kept :
    (close : Reply (Unit {0})) (t : FileInfoTrace)
    → let t' = close_list close t in
      (t'.close_attempted ≡ true)
      × (t'.handle_present ≡ t.handle_present)
      × (t'.get_pages_succeeded ≡ t.get_pages_succeeded)
unfolding close_list
close_list-kept (answered x) t = (refl, refl, refl)
close_list-kept (refused kind code) t = (refl, refl, refl)

-- Nothing was opened or read yet.
record Untouched (t : FileInfoTrace) : Type 0 where
  pub closed : t.close_attempted ≡ false
  pub unopened : t.handle_present ≡ false
  pub unread : t.get_pages_succeeded ≡ 0

read_list-IsClosed :
    (pages : ℕ → Reply Page) (close : Reply (Unit {0})) (t : FileInfoTrace)
    → Untouched t
    → IsClosed (read_list pages close t)
unfolding read_list contains
read_list-IsClosed pages close t u =
    let first : Scan = record {
      trace = record t { handle_present = true };
      recordings = [];
      seen_names = [];
    } in
    let start : IsScan 0 first = record {
      distinct = tt;
      seen = λ x. refl;
      few = omega (arith, u.unread);
      opened = refl;
    } in
    let scanned = get_pages 10 0 pages first in
    let done = Scanned-get_pages 10 0 0 pages first start in
    let (closed, present, read) = close_list-kept close scanned.0.trace in
    record {
      closed = closed ∙ sym (present ∙ done.opened);
      few = omega (arith, read, done.few);
      clean = Clean-answer_of (10 + 0) scanned done;
    }

with_handle-IsClosed :
    (pages : ℕ → Reply Page) (close : Reply (Unit {0})) (x : FileInfoTrace × Option (Option ℤ))
    → Untouched x.0
    → IsClosed (with_handle pages close x)
unfolding with_handle
with_handle-IsClosed pages close (t, none) u = record {
  closed = u.closed ∙ sym u.unopened;
  few = omega (arith, u.unread);
  clean = tt;
}
with_handle-IsClosed pages close (t, some none) u = record {
  closed = u.closed ∙ sym u.unopened;
  few = omega (arith, u.unread);
  clean = tt;
}
with_handle-IsClosed pages close (t, some (some handle)) u = read_list-IsClosed pages close t u

abbrev UntouchedOpen : FileInfoTrace × Option (Option ℤ) → Type 0
UntouchedOpen x = Untouched x.0

Untouched-if :
    (b : Bool) (x y : FileInfoTrace × Option (Option ℤ))
    → UntouchedOpen x
    → UntouchedOpen y
    → UntouchedOpen (if b then x else y)
Untouched-if true x y h k = h
Untouched-if false x y h k = k

after_reply-Untouched :
    (reply : Reply (Option ℤ)) (lost : Bool) (t : FileInfoTrace)
    (retry : FileInfoTrace → FileInfoTrace × Option (Option ℤ))
    → Untouched t
    → ((t' : FileInfoTrace) → Untouched t' → UntouchedOpen (retry t'))
    → UntouchedOpen (after_reply reply lost t retry)
unfolding after_reply
after_reply-Untouched (answered handle) lost t retry u k = record {
  closed = u.closed;
  unopened = u.unopened;
  unread = u.unread;
}
after_reply-Untouched (refused kind code) lost t retry u k =
    let t' : FileInfoTrace = record t { open_failure_type = kind; open_response_code = code } in
    let u' : Untouched t' = record {
      closed = u.closed;
      unopened = u.unopened;
      unread = u.unread;
    } in
    Untouched-if lost (t', none) (retry t') u' (k t' u')

open_list-Untouched :
    (left i : ℕ) (replies : ℕ → OpenReply) (t : FileInfoTrace)
    → Untouched t
    → UntouchedOpen (open_list left i replies t)
unfolding open_list
open_list-Untouched zero i replies t u = u
open_list-Untouched (suc left) i replies t u =
    after_reply-Untouched (replies i).reply (replies i).connection_lost t
      (open_list left (i + 1) replies) u (λ t' u'. open_list-Untouched left (i + 1) replies t' u')

-- Whatever the camera answers, the transaction asks for the close exactly if it had a handle, reads
-- ten pages at most, and a list that it returns holds no file name twice.
pub list_recordings_file_info-IsClosed :
    (opens : ℕ → OpenReply) (pages : ℕ → Reply Page) (close : Reply (Unit {0}))
    → IsClosed (list_recordings_file_info opens pages close)
unfolding list_recordings_file_info
list_recordings_file_info-IsClosed opens pages close =
    with_handle-IsClosed pages close (open_list 3 0 opens start) (
      open_list-Untouched 3 0 opens start
        (record { closed = refl; unopened = refl; unread = refl }))
  where
    start : FileInfoTrace
    start = record fresh_trace { open_attempted = true }
