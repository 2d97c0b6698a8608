-- ===== src/Text/Written.antt =====
-- The text of an address whose bytes are in network order, as the statements have it.
use kubectl_sshuttle.Base.{
  ℕ, ◌+◌, ◌*◌, ◌≡◌, refl, ap, Bool, true, false, List, [], ◌∷◌, ◌++◌, arith,
}
use kubectl_sshuttle.Text.Utf8.{Bytes, Str}
use kubectl_sshuttle.Text.Numbers.{to_string}
use kubectl_sshuttle.Text.Ipv6.{show_ipv6, segments}

-- the numbers of two bytes each
abbrev pub pairs : Bytes → List ℕ
pairs (hi ∷ lo ∷ rest) = (256 * hi + lo) ∷ pairs rest
pairs _ = []

-- an IPv6 address, or the first four bytes as an IPv4 address
abbrev pub written : Bool → Bytes → Str
written true bytes = show_ipv6 (pairs bytes)
written false (a ∷ b ∷ c ∷ d ∷ rest) =
    to_string a ++ (b'.' ∷ (to_string b ++ (b'.' ∷ (to_string c ++ (b'.' ∷ to_string d)))))
written false _ = []

pub segments-pairs : (bytes : Bytes) → segments bytes ≡ pairs bytes
unfolding segments
segments-pairs [] = refl
segments-pairs (hi ∷ []) = refl
segments-pairs (hi ∷ lo ∷ rest) = rw (segments-pairs rest) (ap (λ n. n ∷ pairs rest) (omega arith))
