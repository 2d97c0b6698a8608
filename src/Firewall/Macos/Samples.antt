-- ===== src/Firewall/Macos/Samples.antt =====
-- rushtle/src/firewall/macos.rs on concrete runs of pfctl.
use kubectl_sshuttle.Base.{
  ℕ, zero, suc, ◌≡◌, refl, Bool, true, false, none, some, List, [], ◌∷◌, ◌++◌, arith, codes,
  if◌then◌else◌, same, ok, err, inr,
}
use kubectl_sshuttle.Text.Utf8.{Str}
use kubectl_sshuttle.Text.Slices.{lines, strip_prefix, trim}
use kubectl_sshuttle.Firewall.Macos.{
  ended, Pf, pf_status, pf_context, anchor_of, Mac, pfctl, pfctl_with_stdin, load_args, enable_args,
  rules_text, pf_install, pf_remove,
}
use kubectl_sshuttle.Text.Written.{written}
use kubectl_sshuttle.Firewall.Macos.Undo.{pf_install-undone, pf_unfinished}
use kubectl_sshuttle.Firewall.Macos.Lookup.{
  PfiocNatlook, socket_v4, filled, port_of, copy_front, zeros, request, pf_original_dst,
  pf_original_dst-answer,
}

-- a pfctl that succeeds, and keeps the arguments of its runs
abbrev willing : Pf
willing = record {
  World = List (List Str);
  run_pfctl = λ args stdin w. (ended 0 (codes "pf enabled\nToken : 42\n"), w ++ args ∷ []);
}

-- and one that does not enable pf
abbrev refusing : Pf
refusing = record {
  World = List (List Str);
  run_pfctl =
      λ args stdin w. (ended (if same_args args enable_args then 1 else 0) [], w ++ args ∷ []);
}
  where
    same_args : List Str → List Str → Bool
    same_args (x ∷ []) (y ∷ []) = same x y
    same_args _ _ = false

abbrev nets : List Str
nets = codes "10.0.0.0/8" ∷ []

abbrev chain : Str
chain = codes "RUSHTLE_7"

abbrev fresh : (P : Pf) → P.World → Mac P
fresh P w = record { world = w; state = none }

pf_install-undone_example :
    (m : Mac willing) × (pf_install willing chain 1 2 nets [] true (fresh willing []) ≡ (ok tt, m))
    × (m.world ≡ load_args (anchor_of chain) ∷ enable_args ∷ [])
    × (pf_remove willing m ≡ (
      ok tt,
      record {
        world =
            load_args (anchor_of chain)
            ∷ enable_args
            ∷ (codes "-a" ∷ codes "com.rushtle/RUSHTLE_7" ∷ codes "-F" ∷ codes "all" ∷ [])
            ∷ (codes "-X" ∷ codes "42" ∷ [])
            ∷ [];
        state = none;
      },
    ))
unfolding rules_text pfctl pfctl_with_stdin lines strip_prefix trim
pf_install-undone_example =
    pf_install-undone willing chain 1 2 nets [] true (fresh willing [])
      (codes "pf enabled\nToken : 42\n") (codes "pf enabled\nToken : 42\n") (some (codes "42"))
      (load_args (anchor_of chain) ∷ []) (load_args (anchor_of chain) ∷ enable_args ∷ []) (λ e. cc)
      refl refl (codes "pf enabled" ∷ [], [], codes "42", refl, (refl, tt), refl)

pf_unfinished_example :
    (m : Mac refusing) × (pf_install refusing chain 1 2 nets [] true (fresh refusing [])
      ≡ (err (pf_context (codes "enable pf") (pf_status enable_args 1 [])), m))
    × (m.world ≡ load_args (anchor_of chain) ∷ enable_args ∷ [])
    × (pf_remove refusing m ≡ (ok tt, m))
unfolding rules_text pfctl pfctl_with_stdin
pf_unfinished_example =
    pf_unfinished refusing chain 1 2 nets [] true (fresh refusing []) []
      (pf_status enable_args 1 []) (load_args (anchor_of chain) ∷ [])
      (load_args (anchor_of chain) ∷ enable_args ∷ []) (λ e. cc) refl refl refl

-- pf knows the connection for PF_IN only
abbrev answer_to : PfiocNatlook → PfiocNatlook
answer_to nl = record nl {
  rdaddr = 10 ∷ 0 ∷ 0 ∷ 7 ∷ copy_front [] (zeros 12);
  rdxport = 0 ∷ 22 ∷ 0 ∷ 0 ∷ [];
}

abbrev inward : PfiocNatlook → ℕ × PfiocNatlook
inward nl = elim nl.direction [
  | zero ↦ (1, nl)
  | suc n ↦ elim n [ zero ↦ (0, answer_to nl) | suc k ↦ (1, nl) ]
]

abbrev asked : PfiocNatlook
asked =
    filled (copy_front (127 ∷ 0 ∷ 0 ∷ 1 ∷ []) (zeros 16))
      (copy_front (127 ∷ 0 ∷ 0 ∷ 1 ∷ []) (zeros 16)) 40000 12300 2 6

pf_original_dst-answer_example :
    (port_of asked.sxport ≡ 40000)
    × (port_of asked.dxport ≡ 12300)
    × (asked.direction ≡ 2)
    × (pf_original_dst 2 30 6
          (ok tt)
          inward
          (socket_v4 (127 ∷ 0 ∷ 0 ∷ 1 ∷ []) 40000)
          (socket_v4 (127 ∷ 0 ∷ 0 ∷ 1 ∷ []) 12300)
        ≡ ok (written false (10 ∷ 0 ∷ 0 ∷ 7 ∷ []), 22))
unfolding request filled
pf_original_dst-answer_example =
    pf_original_dst-answer 2 30 6 (ok tt) inward (socket_v4 (127 ∷ 0 ∷ 0 ∷ 1 ∷ []) 40000)
      (socket_v4 (127 ∷ 0 ∷ 0 ∷ 1 ∷ []) 12300) asked (answer_to (record asked { direction = 1 })) 0
      22 (0 ∷ 0 ∷ []) (omega arith) (omega arith) refl refl (inr (0, asked, refl, refl)) refl refl
