-- ===== src/Stream/Ack.antt =====
-- `send_ack` of live_stream.py: the acknowledgement of the packets that arrived, with a bitmap of
-- those that arrived ahead of a gap.
use ha_reolink_battery.Base.{
  ℕ, zero, suc, ◌+◌, ◌-◌, ◌≤◌, ◌<◌, ◌≡◌, refl, sym, ap, ◌∙◌, inl, inr, max, Bool, true, false, List,
  [], ◌∷◌, ◌++◌, Option, none, some, arith, length, any, Bool-cases, ltb, nat_eq, if◌then◌else◌, ℤ,
  pos, negsuc,
}
use ha_reolink_battery.Wire.{Bytes, to_bytes}

-- `seq_id in pending`, on the keys of `_seq_data`
unfoldable pub waits : ℕ → List ℕ → Bool
waits seq_id pending = any (nat_eq seq_id) pending

-- `max(pending)` of a dictionary that is not empty
unfoldable pub highest : List ℕ → ℕ
highest [] = 0
highest (seq_id ∷ pending) = max seq_id (highest pending)

-- One byte for each of `count` numbers from `seq_id` on.
unfoldable pub flags : List ℕ → ℕ → ℕ → Bytes
flags pending seq_id zero = []
flags pending seq_id (suc count) =
    (if waits seq_id pending then 1 else 0) ∷ flags pending (suc seq_id) count

unfoldable pub ack_payload : ℕ → List ℕ → Bytes
ack_payload recv_seq_id pending =
    if ltb recv_seq_id (highest pending)
    then flags pending (recv_seq_id + 1) (highest pending - recv_seq_id)
    else []

-- The packet; the host's id and the numbers are four bytes of the protocol each.
unfoldable pub ack_packet : ℕ → ℕ → List ℕ → Bytes
ack_packet host_id recv_seq_id pending =
    let payload = ack_payload recv_seq_id pending in
    (0x20 ∷ 0xcf ∷ 0x87 ∷ 0x2a ∷ [])
    ++ (to_bytes 4 host_id
        ++ (to_bytes 8 0
            ++ (to_bytes 4 recv_seq_id
                ++ (to_bytes 4 0 ++ (to_bytes 4 (length payload) ++ payload)))))

-- What is sent: the base class's own acknowledgement, none, or this packet.
pub data Ack : Type 0 where
  base_ack : Ack
  no_ack : Ack
  ack : Bytes → Ack

unfoldable pub send_ack : (has_transport : Bool) → Option ℕ → ℤ → List ℕ → Ack
send_ack false host_id recv_seq_id pending = base_ack
send_ack true none recv_seq_id pending = base_ack
send_ack true (some host_id) (negsuc n) pending = no_ack
send_ack true (some host_id) (pos recv_seq_id) pending =
    ack (ack_packet host_id recv_seq_id pending)

-- The camera's reading of a byte of the bitmap; behind its end nothing is acknowledged.
abbrev pub flagged : ℕ → Bytes → Bool
flagged i [] = false
flagged zero (x ∷ xs) = nat_eq x 1
flagged (suc i) (x ∷ xs) = flagged i xs

waits-le-highest :
    (seq_id : ℕ) (pending : List ℕ) → waits seq_id pending ≡ true → seq_id ≤ highest pending
unfolding waits highest
waits-le-highest seq_id [] h = absurd (ground (arith, h))
waits-le-highest seq_id (x ∷ pending) h = elim (Bool-cases (nat_eq seq_id x)) [
  | inl here ↦ ground (arith, here)
  | inr later ↦ omega (arith, waits-le-highest seq_id pending (ground (arith, h, later)))
]

flagged-flags :
    (pending : List ℕ) (i seq_id count : ℕ)
    → i < count
    → flagged i (flags pending seq_id count) ≡ waits (seq_id + i) pending
unfolding flags
flagged-flags pending i seq_id zero h = absurd (omega (arith, h))
flagged-flags pending zero seq_id (suc count) h =
    flag_bit (waits seq_id pending) ∙ ap (λ n. waits n pending) (omega arith)
  where
    flag_bit : (b : Bool) → nat_eq (if b then 1 else 0) 1 ≡ b
    flag_bit true = refl
    flag_bit false = refl
flagged-flags pending (suc i) seq_id (suc count) h =
    flagged-flags pending i (suc seq_id) count (omega (arith, h))
    ∙ ap (λ n. waits n pending) (omega arith)

flagged_behind :
    (pending : List ℕ) (i seq_id count : ℕ)
    → count ≤ i
    → flagged i (flags pending seq_id count) ≡ false
unfolding flags
flagged_behind pending i seq_id zero h = refl
flagged_behind pending zero seq_id (suc count) h = absurd (omega (arith, h))
flagged_behind pending (suc i) seq_id (suc count) h =
    flagged_behind pending i (suc seq_id) count (omega (arith, h))

length-flags : (pending : List ℕ) (seq_id count : ℕ) → length (flags pending seq_id count) ≡ count
unfolding flags
length-flags pending seq_id zero = refl
length-flags pending seq_id (suc count) = omega (arith, length-flags pending (suc seq_id) count)

not_waits :
    (seq_id : ℕ) (pending : List ℕ) → highest pending < seq_id → false ≡ waits seq_id pending
not_waits seq_id pending h = elim (Bool-cases (waits seq_id pending)) [
  | inl here ↦ absurd (omega (arith, h, waits-le-highest seq_id pending here))
  | inr absent ↦ sym absent
]

-- The bitmap says of every number after the last one received in order whether its packet is
-- there, by the byte at its distance; it ends with the highest number that waits, so it is as long
-- as that number is ahead, and empty if none is.
pub ack_payload-flagged :
    (recv_seq_id : ℕ) (pending : List ℕ)
    → (length (ack_payload recv_seq_id pending) ≡ highest pending - recv_seq_id)
      × ((i : ℕ)
          → flagged i (ack_payload recv_seq_id pending) ≡ waits (recv_seq_id + 1 + i) pending)
unfolding ack_payload
ack_payload-flagged recv_seq_id pending = elim (Bool-cases (ltb recv_seq_id (highest pending))) [
  | inl ahead ↦ rw ahead (
    length-flags pending (recv_seq_id + 1) (highest pending - recv_seq_id),
    λ i. elim (Bool-cases (ltb i (highest pending - recv_seq_id))) [
      | inl inside ↦
          flagged-flags pending i (recv_seq_id + 1) (highest pending - recv_seq_id)
            (ground (arith, inside))
      | inr behind ↦
          flagged_behind pending i (recv_seq_id + 1) (highest pending - recv_seq_id)
            (ground (arith, behind))
          ∙ not_waits (recv_seq_id + 1 + i) pending (ground (arith, ahead, behind))
    ],
  )
  | inr none_ahead ↦ rw none_ahead (
    ground (arith, none_ahead),
    λ i. not_waits (recv_seq_id + 1 + i) pending (ground (arith, none_ahead)),
  )
]
