-- ===== src/Firewall/Linux/Jumps.antt =====
-- rushtle/src/firewall/linux.rs: the jumps among the rules of OUTPUT, and the loop that deletes them.
use kubectl_sshuttle.Base.{
  ℕ, zero, suc, ◌≡◌, ◌≤◌, refl, sym, ap, ◌∙◌, none, some, List, [], ◌∷◌, arith, if◌then◌else◌,
  Bool-cases, Option-cases, inl, inr,
}
use kubectl_sshuttle.Text.Utf8.{Str}
use kubectl_sshuttle.Firewall.Linux.{jump_rule}
use kubectl_sshuttle.Firewall.Linux.Nat.{Rule, same_rule, delete_first, Free}

-- the rules without those like this one, and the number of those
abbrev pub without : Rule → List Rule → List Rule
without r [] = []
without r (x ∷ xs) = let rest = without r xs in if same_rule r x then rest else x ∷ rest

abbrev pub count : Rule → List Rule → ℕ
count r [] = 0
count r (x ∷ xs) = let rest = count r xs in if same_rule r x then suc rest else rest

-- what the rounds of the loop leave
abbrev pub purge : ℕ → Rule → List Rule → List Rule
purge zero r rs = rs
purge (suc n) r rs = elim (delete_first r rs) [ none ↦ rs | some left ↦ purge n r left ]

pub without_none : (r : Rule) (rs : List Rule) → count r rs ≡ 0 → without r rs ≡ rs
without_none r [] h = refl
without_none r (x ∷ xs) h = ground (arith, without_none r xs)

pub delete_none_lem : (r : Rule) (rs : List Rule) → delete_first r rs ≡ none → count r rs ≡ 0
delete_none_lem r [] h = refl
delete_none_lem r (x ∷ xs) h = ground (arith, delete_none_lem r xs)

pub delete_some_lem :
    (r : Rule) (rs left : List Rule)
    → delete_first r rs ≡ some left
    → (count r rs ≡ suc (count r left)) × (without r rs ≡ without r left)
delete_some_lem r [] left h = cc
delete_some_lem r (x ∷ xs) left h = elim (Bool-cases (same_rule r x)) [
  | inl hit ↦ let e : xs ≡ left = ground arith in rw (hit, e) (refl, refl)
  | inr miss ↦ elim (Option-cases (delete_first r xs)) [
    | inl gone ↦ absurd (ground arith)
    | inr (ys, found) ↦
        let (c, w) = delete_some_lem r xs ys found in
        let e : x ∷ ys ≡ left = ground arith in rw (← e, miss) (c, ap (λ t. x ∷ t) w)
  ]
]

-- enough rounds remove all
pub purge-without :
    (n : ℕ) (r : Rule) (rs : List Rule) → count r rs ≤ n → purge n r rs ≡ without r rs
purge-without zero r rs h = sym (without_none r rs (omega arith))
purge-without (suc n) r rs h = elim (Option-cases (delete_first r rs)) [
  | inl gone ↦ rw (purge, gone) (sym (without_none r rs (delete_none_lem r rs gone)))
  | inr (left, found) ↦
      let (c, w) = delete_some_lem r rs left found in
      rw (purge, found) (purge-without n r left (omega arith) ∙ sym w)
]

pub without-Free : (chain : Str) (rs : List Rule) → Free chain (without (jump_rule chain) rs)
without-Free chain [] = tt
without-Free chain (x ∷ xs) = elim (Bool-cases (same_rule (jump_rule chain) x)) [
  | inl hit ↦ rw hit (without-Free chain xs)
  | inr miss ↦ rw miss (miss, without-Free chain xs)
]
