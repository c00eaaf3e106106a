-- ===== src/CoapServer/FindOptions.antt =====
-- `coap_findOptions` relies on options in the order of their numbers; on those it finds all.
use gateway_project.Base.{
  ℕ, ◌+◌, ◌%◌, ◌≤◌, ◌<◌, ◌≡◌, refl, ap, List, [], ◌∷◌, Option, none, some, length, take, arith,
  ◌==◌, ==_true, ==_false, ℕ_discrete, if◌then◌else◌,
}
use gateway_project.CoapServer.Packet.{CoapOption, CoapPacket}
use gateway_project.CoapServer.Respond.{find_loop, find_options}

abbrev pub AreSorted : ℕ → List CoapOption → Type 0
AreSorted prev [] = Unit {0}
AreSorted prev (o ∷ os) = (prev ≤ o.num) × AreSorted o.num os

-- All options with a number, wherever they stand.
abbrev pub with_num : ℕ → List CoapOption → List CoapOption
with_num num [] = []
with_num num (o ∷ os) = if o.num == num then o ∷ with_num num os else with_num num os

-- The options that a result of `coap_findOptions` denotes: `count` entries from the pointer on.
abbrev pub denoted : Option (List CoapOption) × ℕ → List CoapOption
denoted (none, count) = []
denoted (some f, count) = take count f

with_num_none : (num p : ℕ) (os : List CoapOption) → num < p → AreSorted p os → with_num num os ≡ []
with_num_none num p [] h s = refl
with_num_none num p (o ∷ os) h (le, s) =
    rw (==_false o.num num (omega arith)) (with_num_none num o.num os (omega arith) s)

pub length-with_num : (num : ℕ) (os : List CoapOption) → length (with_num num os) ≤ length os
length-with_num num [] = omega arith
length-with_num num (o ∷ os) = ground (arith, length-with_num num os)

-- In a run of options with the number, `f` points at its first.
find_loop_run :
    (num count : ℕ) (f os : List CoapOption)
    → AreSorted num os
    → count + length os < 256
    → find_loop num (some f) count os ≡ (some f, count + length (with_num num os))
unfolding find_loop
find_loop_run num count f [] s room = ap (λ (n : ℕ). (some f, n)) (omega arith)
find_loop_run num count f (o ∷ os) (le, s) room = elim (ℕ_discrete o.num num) [
  | yes e ↦
      let s' : AreSorted num os = rw e at s in
      let c : (count + 1) % 256 ≡ count + 1 = omega arith in
      rw (==_true o.num num e, c, find_loop_run num (count + 1) f os s' (omega arith))
        (ap (λ (n : ℕ). (some f, n)) (omega arith))
  | no ne ↦
      rw (==_false o.num num ne, with_num_none num o.num os (omega arith) s)
        (ap (λ (n : ℕ). (some f, n)) (omega arith))
]

take-with_num :
    (num : ℕ) (os : List CoapOption)
    → AreSorted num os
    → take (length (with_num num os)) os ≡ with_num num os
take-with_num num [] s = refl
take-with_num num (o ∷ os) (le, s) = elim (ℕ_discrete o.num num) [
  | yes e ↦
      let s' : AreSorted num os = rw e at s in rw (==_true o.num num e, take-with_num num os s')
  | no ne ↦ rw (==_false o.num num ne, with_num_none num o.num os (omega arith) s)
]

pub find_loop-with_num :
    (num prev : ℕ) (os : List CoapOption)
    → AreSorted prev os
    → length os < 256
    → (denoted (find_loop num none 0 os) ≡ with_num num os)
      × ((find_loop num none 0 os).1 ≡ length (with_num num os))
unfolding find_loop
find_loop-with_num num prev [] s room = (refl, refl)
find_loop-with_num num prev (o ∷ os) (le, s) room = elim (ℕ_discrete o.num num) [
  | yes e ↦
      let s' : AreSorted num os = rw e at s in
      let one : (0 + 1) % 256 ≡ 1 = refl in
      rw (==_true o.num num e, find_loop_run num 1 (o ∷ os) os s' (omega arith))
        (ground (arith, take-with_num num os s'), omega arith)
  | no ne ↦ rw (==_false o.num num ne) (find_loop-with_num num o.num os s (omega arith))
]

-- A pointer that is not NULL comes with at least one option.
abbrev pub Starts : Option (List CoapOption) × ℕ → Type 0
Starts (none, count) = Unit {0}
Starts (some f, count) = 0 < count

find_loop-Starts :
    (num prev : ℕ) (os : List CoapOption)
    → AreSorted prev os
    → length os < 256
    → Starts (find_loop num none 0 os)
unfolding find_loop
find_loop-Starts num prev [] s room = tt
find_loop-Starts num prev (o ∷ os) (le, s) room = elim (ℕ_discrete o.num num) [
  | yes e ↦
      let s' : AreSorted num os = rw e at s in
      rw (==_true o.num num e, find_loop_run num 1 (o ∷ os) os s' (omega arith)) (omega arith)
  | no ne ↦ rw (==_false o.num num ne) (find_loop-Starts num o.num os s (omega arith))
]

pub find_options-Starts :
    (k : CoapPacket) (num : ℕ)
    → AreSorted 0 k.opts
    → length k.opts < 256
    → Starts (find_options k num)
unfolding find_options
find_options-Starts k num s room = find_loop-Starts num 0 k.opts s room

-- `coap_findOptions` on a packet whose options are in ascending order and fewer than 256: the options
-- that its result denotes are all options with the number, in order, and the count is their number.
pub find_options-with_num :
    (k : CoapPacket) (num : ℕ)
    → AreSorted 0 k.opts
    → length k.opts < 256
    → (denoted (find_options k num) ≡ with_num num k.opts)
      × ((find_options k num).1 ≡ length (with_num num k.opts))
unfolding find_options
find_options-with_num k num s room = find_loop-with_num num 0 k.opts s room
