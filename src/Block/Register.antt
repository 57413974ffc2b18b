-- ===== src/Block/Register.antt =====
-- What the table of block devices gives for a name after a device has been entered.
use blackmount.Common.{
  Option, ap, All, ℕ, ◌≡◌, refl, ap₂, subst, Bool, true, false, List, [], ◌∷◌, none, some,
  if◌then◌else◌, ◌⊎◌, inl, inr, arith,
}
use blackmount.Users.{str_eq}
use blackmount.Block.{BlockDevice, Devices, block_register, block_get}

str_eq-eq : (xs ys : List ℕ) → str_eq xs ys ≡ true → xs ≡ ys
unfolding str_eq
str_eq-eq [] [] e = refl
str_eq-eq [] (y ∷ ys) e = absurd (ground (arith, e))
str_eq-eq (x ∷ xs) [] e = absurd (ground (arith, e))
str_eq-eq (x ∷ xs) (y ∷ ys) e =
    ap₂ (λ z zs. z ∷ zs) (ground (arith, e)) (str_eq-eq xs ys (ground (arith, e)))

-- A device is entered: the name gives it, other names what they gave before.
abbrev pub Entered : Devices → BlockDevice → List ℕ → Bool × Devices → Type 0
Entered devices dev name (ok, devices') =
    (ok ≡ true)
    × (block_get devices' name
        ≡ (if str_eq dev.name name then some dev else block_get devices name))

-- An entry before others keeps a fresh name apart, and the others keep it fresh.
fresh_before :
    (d dev : BlockDevice) (ds : Devices)
    → block_get (some d ∷ ds) dev.name ≡ none
    → (str_eq d.name dev.name ≡ false) × (block_get ds dev.name ≡ none)
unfolding block_get
fresh_before d dev ds fresh = ground (arith, fresh)

-- One name is not that of two devices with names apart.
one_name :
    (d dev : BlockDevice) (name : List ℕ)
    → str_eq d.name dev.name ≡ false
    → str_eq dev.name name ≡ true
    → str_eq d.name name ≡ false
one_name d dev name apart e =
    subst (λ other. str_eq d.name other ≡ false) (str_eq-eq dev.name name e) apart

later :
    (d dev : BlockDevice) (ds : Devices) (name : List ℕ) (r : Bool × Devices)
    → str_eq d.name dev.name ≡ false
    → Entered ds dev name r
    → Entered (some d ∷ ds) dev name (r.0, some d ∷ r.1)
unfolding block_get
later d dev ds name (ok, ds') apart (taken, got) =
    (taken, ground (arith, got, one_name d dev name apart))

abbrev pub taken : Option BlockDevice → Bool
taken none = false
taken (some d) = true

-- Every place of the table has a device, and the call fails and changes nothing.
abbrev pub Full : Devices → Bool × Devices → Type 0
Full devices (ok, devices') =
    (ok ≡ false) × (devices' ≡ devices) × All (λ place. taken place ≡ true) devices

-- Entering a device under a name that no device has: every place of the table is taken, the call fails
-- and the table stays as it was, or it succeeds, and then the name gives the device and each other name
-- gives what it gave before.
pub block_get-block_register :
    (devices : Devices) (dev : BlockDevice) (name : List ℕ)
    → block_get devices dev.name ≡ none
    → Full devices (block_register devices dev)
      ⊎ Entered devices dev name (block_register devices dev)
unfolding block_register block_get
block_get-block_register [] dev name fresh = inl (refl, refl, tt)
block_get-block_register (none ∷ ds) dev name fresh = inr (refl, refl)
block_get-block_register (some d ∷ ds) dev name fresh =
    let (apart, rest) = fresh_before d dev ds fresh in
    elim (block_get-block_register ds dev name rest) [
      | inl (failed, same, full) ↦ inl (failed, ap (λ rest. some d ∷ rest) same, (refl, full))
      | inr entered ↦ inr (later d dev ds name (block_register ds dev) apart entered)
    ]
