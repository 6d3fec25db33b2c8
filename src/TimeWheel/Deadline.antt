-- ===== src/TimeWheel/Deadline.antt =====
-- When an entry of the time wheel fires (pkg/timewheel/wheel.go, `AddAt` and `tick`): the seconds wheel
-- and the minutes wheel together.
pub mod Advance
pub mod Schedule
use tickraft.Base.{
  ℕ, zero, suc, ltb→lt, ltb→ge, ◌≡◌, ◌<◌, ◌≤◌, ◌⊎◌, refl, ◌+◌, ◌*◌, ◌-◌, ◌/◌, ◌%◌, List, some,
  arith, inl, inr, lookup, nat_key, Bool-cases, ltb,
}
use tickraft.TimeWheel.{nanos, Entry, Location, Wheel, cascade_slot, tick}
use tickraft.TimeWheel.Places.{slot_at}

-- The entries that the tick after `k` more fires, with a tick each second from `last` on.
unfoldable pub fired : ℕ → Wheel → ℕ → List (ℕ × Entry)
fired zero w last = (tick w (last + nanos)).1
fired (suc k) w last = fired k (tick w (last + nanos)).0 (last + nanos)

-- The entry fires at the `q`-th tick: it is in the slot that the seconds wheel then reaches, or in a slot
-- that the minutes wheel reaches by then.
abbrev pub Near : ℕ → Entry → Wheel → ℕ → Type 0
Near id e w q = (q < 60) × (lookup id (w.seconds ((w.sec_ptr + q) % 60)) ≡ some e)

abbrev pub Far : ℕ → Entry → Wheel → ℕ → ℕ → Type 0
Far id e w q last =
    (j : ℕ) × (1 ≤ j)
    × (60 * j ≤ q + w.sec_ptr)
    × ((e.expire_at - last) / nanos ≡ q)
    × (lookup id (w.minutes ((w.min_ptr + j) % 60)) ≡ some e)

abbrev pub Due : ℕ → Entry → Wheel → ℕ → ℕ → Type 0
Due id e w q last = Near id e w q ⊎ Far id e w q last

-- An entry in the slot of its remaining time is due at the end of it.
pub landing :
    (id : ℕ) (e : Entry) (w v : Wheel) (q last : ℕ)
    → (v.sec_ptr ≡ w.sec_ptr) × (v.min_ptr ≡ w.min_ptr)
    → w.sec_ptr < 60
    → (e.expire_at - last) / nanos ≡ q
    → lookup id (slot_at v (cascade_slot w q)) ≡ some e
    → Due id e v q last
unfolding cascade_slot
landing id e w v q last (sec, min) bound remains h = elim (Bool-cases (ltb q 1)) [
  | inl now ↦
      let small = ltb→lt q 1 now in
      let place : (v.sec_ptr + q) % 60 ≡ w.sec_ptr = omega (arith, sec) in
      let there : lookup id (v.seconds w.sec_ptr) ≡ some e = rw now at h in
      inl (omega arith, rw place there)
  | inr later ↦ elim (Bool-cases (ltb q 60)) [
    | inl minute ↦
        let place : (v.sec_ptr + q) % 60 ≡ (w.sec_ptr + q) % 60 = omega (arith, sec) in
        let there : lookup id (v.seconds ((w.sec_ptr + q) % 60)) ≡ some e =
          rw minute at (rw later at h) in
        inl (ltb→lt q 60 minute, rw place there)
    | inr more ↦
        let large = ltb→ge q 60 more in
        let place : (v.min_ptr + q / 60) % 60 ≡ (w.min_ptr + q / 60) % 60 = omega (arith, min) in
        let there : lookup id (v.minutes ((w.min_ptr + q / 60) % 60)) ≡ some e =
          rw more at (rw later at h) in
        inr (q / 60, omega arith, omega arith, remains, rw place there)
  ]
]
