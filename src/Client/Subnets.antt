-- ===== src/Client/Subnets.antt =====
-- rushtle/src/client.rs, `split_subnets_by_family`.
use kubectl_sshuttle.Base.{
  ◌≡◌, ap, Bool, true, false, List, [], ◌∷◌, ◌++◌, append_assoc, append-nil, if◌then◌else◌, codes,
  Bool-cases, inl, inr,
}
use kubectl_sshuttle.Text.Utf8.{Str}
use kubectl_sshuttle.Text.Slices.{contains}

-- `s.contains(':')`
unfoldable pub is_v6 : Str → Bool
is_v6 s = contains (codes ":") s

-- `v6.push` or `v4.push`, subnet by subnet
pub sort_subnets : List Str → List Str → List Str → List Str × List Str
sort_subnets v4 v6 [] = (v4, v6)
sort_subnets v4 v6 (s ∷ rest) =
    let to_v6 = sort_subnets v4 (v6 ++ s ∷ []) rest in
    let to_v4 = sort_subnets (v4 ++ s ∷ []) v6 rest in if is_v6 s then to_v6 else to_v4

unfoldable pub split_subnets_by_family : List Str → List Str × List Str
unfolding sort_subnets
split_subnets_by_family = sort_subnets [] []

-- `!subnets_v6.is_empty()`
abbrev pub has_v6 : List Str → Bool
has_v6 [] = false
has_v6 (c ∷ cs) = true

-- the items on which a test gives this answer, in order
abbrev pub keep : (Str → Bool) → Bool → List Str → List Str
keep p b [] = []
keep p true (s ∷ rest) = if p s then s ∷ keep p true rest else keep p true rest
keep p false (s ∷ rest) = if p s then keep p false rest else s ∷ keep p false rest

sort_subnets-keep :
    (subnets v4 v6 : List Str)
    → sort_subnets v4 v6 subnets ≡ (v4 ++ keep is_v6 false subnets, v6 ++ keep is_v6 true subnets)
unfolding sort_subnets
sort_subnets-keep [] v4 v6 = rw (append-nil v4, append-nil v6)
sort_subnets-keep (s ∷ rest) v4 v6 = elim (Bool-cases (is_v6 s)) [
  | inl h ↦
      rw (h, sort_subnets-keep rest v4 (v6 ++ s ∷ []))
        (ap (λ x. (v4 ++ keep is_v6 false rest, x))
          (append_assoc v6 (s ∷ []) (keep is_v6 true rest)))
  | inr h ↦
      rw (h, sort_subnets-keep rest (v4 ++ s ∷ []) v6)
        (ap (λ x. (x, v6 ++ keep is_v6 true rest))
          (append_assoc v4 (s ∷ []) (keep is_v6 false rest)))
]

-- Each subnet goes, in the order given, to the one list that its colon decides.
pub split_subnets-keep :
    (subnets : List Str)
    → split_subnets_by_family subnets ≡ (keep is_v6 false subnets, keep is_v6 true subnets)
unfolding split_subnets_by_family
split_subnets-keep subnets = sort_subnets-keep subnets [] []
