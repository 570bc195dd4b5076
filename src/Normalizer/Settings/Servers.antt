-- ===== src/Normalizer/Settings/Servers.antt =====
-- A server that is added to a list makes the list usable.
use valsec.Prelude.{
  String, true, false, List, [], ◌∷◌, ◌++◌, ◌≡◌, refl, inl, inr, Bool-cases, eq_iff, ◌is◌, member,
  strip, is_blank, is_empty,
}
use valsec.Compliance.Cisco.{usable_servers}
use valsec.Normalizer.Settings.{add_item}

same_text : (x s : String) → (x is s) ≡ true → x ≡ s
same_text x s = (eq_iff x s).0

-- A server whose text is more than white space is usable wherever it stands.
usable_member :
    (s : String) (xs : List String)
    → is_blank (strip s) ≡ false
    → member s xs ≡ true
    → is_empty (usable_servers xs) ≡ false
unfolding usable_servers
usable_member s [] usable found = cc
usable_member s (x ∷ xs) usable found = elim (Bool-cases (x is s)) [
  | inl e ↦ rw (same_text x s e, usable) refl
  | inr e ↦ elim (Bool-cases (is_blank (strip x))) [
    | inl b ↦ rw b (usable_member s xs usable (rw (← found, e) refl))
    | inr b ↦ rw b refl
  ]
]

member-append : (s : String) (xs : List String) → member s (xs ++ s ∷ []) ≡ true
member-append s [] = rw ((eq_iff s s).1 refl) refl
member-append s (x ∷ xs) = elim (Bool-cases (x is s)) [
  | inl e ↦ rw e refl
  | inr e ↦ rw (e, member-append s xs) refl
]

pub member-add_item : (s : String) (xs : List String) → member s (add_item s xs) ≡ true
unfolding add_item
member-add_item s xs = elim (Bool-cases (member s xs)) [
  | inl e ↦ rw (e, e) refl
  | inr e ↦ rw e (member-append s xs)
]

nonempty : (xs : List String) → is_empty (usable_servers xs) ≡ false → is_empty xs ≡ false
unfolding usable_servers
nonempty [] e = e
nonempty (x ∷ xs) e = refl

pub add_item-usable :
    (s : String) (xs : List String)
    → is_blank (strip s) ≡ false
    → (is_empty (add_item s xs) ≡ false) × (is_empty (usable_servers (add_item s xs)) ≡ false)
add_item-usable s xs usable =
    let some_usable = usable_member s (add_item s xs) usable (member-add_item s xs) in
    (nonempty (add_item s xs) some_usable, some_usable)
