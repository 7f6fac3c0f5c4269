-- ===== src/Mock/Checkins.antt =====
-- When the mock accepts a check-in.
use woodgate.Common.{
  Bool-cases, Text, codes, text_eq_iff, ℕ, ◌≡◌, refl, ap, ◌↔◌, ◌⊎◌, inl, inr, true, Option, none,
  some, arith,
}
use woodgate.Common.Number.{Number, whole, other, pos, negsuc, num}
use woodgate.Mock.{
  Form, created, status, form_get, string_field, is_image, is_direction, is_person, number_field,
  checkin_of_form,
}

is_person-known :
    (p : Option Number)
    → is_person p ≡ true
    → (n : ℕ) × (p ≡ some (num n)) × ((n ≡ 1) ⊎ (n ≡ 2) ⊎ (n ≡ 3))
is_person-known none h = cc
is_person-known (some (other t)) h = cc
is_person-known (some (whole (negsuc n))) h = cc
is_person-known (some (whole (pos n))) h = (n, refl, ground arith)

is_direction-valid :
    (d : Option Text)
    → is_direction d ≡ true
    → (t : Text) × (d ≡ some t) × ((t ≡ codes "check_in") ⊎ (t ≡ codes "check_out"))
is_direction-valid none h = cc
is_direction-valid (some t) h =
    (t, refl, ground (arith, text_eq_iff t (codes "check_in"), text_eq_iff t (codes "check_out")))

-- What a form has to hold: the id of a known person, a direction and an image.
abbrev pub IsComplete : (Text → Number) → Form → ℕ → Text → Type 0
IsComplete to_number form n direction =
    (number_field to_number form (codes "person_id") ≡ some (num n))
    × ((n ≡ 1) ⊎ (n ≡ 2) ⊎ (n ≡ 3))
    × (string_field form (codes "direction") ≡ some direction)
    × ((direction ≡ codes "check_in") ⊎ (direction ≡ codes "check_out"))
    × (is_image (form_get form (codes "photo")) ≡ true)

module _ (to_number : Text → Number) (form : Form) where
  complete-created :
      (n : ℕ) (direction : Text)
      → IsComplete to_number form n direction
      → checkin_of_form to_number form ≡ created 1 (num n) 1 direction
  unfolding checkin_of_form
  complete-created n direction (person, known, way, valid, photo) =
      rw (person, way, photo) (ground arith)

  created-IsComplete :
      status (checkin_of_form to_number form) ≡ 200
      → (n : ℕ) × (direction : Text) × IsComplete to_number form n direction
  unfolding checkin_of_form
  created-IsComplete fine =
      let person = number_field to_number form (codes "person_id") in
      let direction = string_field form (codes "direction") in
      elim (Bool-cases (is_person person)) [
        | inr wrong ↦ grind arith
        | inl known ↦ elim (Bool-cases (is_direction direction)) [
          | inr wrong ↦ grind arith
          | inl way ↦ elim (Bool-cases (is_image (form_get form (codes "photo")))) [
            | inr wrong ↦ grind arith
            | inl image ↦
                let (n, person_is, n_known) = is_person-known person known in
                let (d, direction_is, valid) = is_direction-valid direction way in
                (n, d, (person_is, n_known, direction_is, valid, image))
          ]
        ]
      ]

  -- A form gets status 200 exactly if it names a known person, a direction and an image.
  pub checkin_of_form-IsComplete :
      (status (checkin_of_form to_number form) ≡ 200)
      ↔ ((n : ℕ) × (direction : Text) × IsComplete to_number form n direction)
  checkin_of_form-IsComplete = (
    created-IsComplete,
    λ (n, direction, complete). ap status (complete-created n direction complete),
  )
