-- ===== src/Firewall/Linux/Refused.antt =====
-- rushtle/src/firewall/linux.rs: an `install` in which ip6tables refuses a rule, and the `remove`
-- behind it.
use mathlib.Core.Path.{fun_ext}
use kubectl_sshuttle.Base.{
  ℕ, suc, ◌≡◌, refl, sym, ap, ◌∙◌, Bool, true, false, some, List, [], ◌∷◌, ◌++◌, map, append_assoc,
  append-nil, arith, codes, same, eq_of_same, All, All-split, Bool-cases, inl, inr, Result, ok, err,
}
use kubectl_sshuttle.Text.Utf8.{Str}
use kubectl_sshuttle.Text.Numbers.{to_string}
use kubectl_sshuttle.Firewall.System.{exited, System, CmdError, bind_result, for_each, ◌>>◌}
use kubectl_sshuttle.Firewall.Linux.{
  iptables, ip6tables, output, jump_rule, tcp_rule, local_rule, loopback_rule, nat, with_wait, Cmd,
  spawn, append, iptables_cmd, iptables_create_chain, install_v6, install, remove_one, remove,
}
use kubectl_sshuttle.Firewall.Linux.Nameservers.{read_local_nameservers_v4}
use kubectl_sshuttle.Firewall.Linux.Nat.{Rule, View, put, put_same, put_other, IsNat}
use kubectl_sshuttle.Firewall.Linux.Goes.{Goes, Goes->>, cmd_fails, fresh-Goes, add-Goes}
use kubectl_sshuttle.Firewall.Linux.Install.{
  dns_part, rules_v4, chain_v4, hooked, adds-Goes, dns-Goes, hook-Goes,
}
use kubectl_sshuttle.Firewall.Linux.Jumps.{without_none}
use kubectl_sshuttle.Firewall.Linux.Remove.{unhooked, remove_one-Goes}
use kubectl_sshuttle.Firewall.Linux.RoundTrip.{Clean, undo-Goes}

-- the tables of the two programs are apart
apart :
    (v : View) (chain : Str) (r₄ r₆ out : List Rule)
    → put (hooked v iptables chain r₄ out) ip6tables chain (some r₆)
      ≡ hooked (put v ip6tables chain (some r₆)) iptables chain r₄ out
apart v chain r₄ r₆ out = fun_ext λ b. fun_ext λ c. elim (Bool-cases (same b iptables)) [
  | inl h ↦ rw (eq_of_same b iptables h) refl
  | inr h ↦ rw h refl
]

-- OUTPUT has no jump to take away
bare :
    (v : View) (chain : Str) (rules out : List Rule)
    → same output chain ≡ false
    → Clean v ip6tables chain out
    → unhooked (put v ip6tables chain (some rules)) ip6tables chain out ≡ v
bare v chain rules out other (there, gone, unused, only) =
    rw (without_none (jump_rule chain) out unused) (
      fun_ext λ b. fun_ext λ c. elim (Bool-cases (same b ip6tables)) [
        | inl hb ↦ elim (Bool-cases (same c chain)) [
          | inl hc ↦ rw (hb, hc, eq_of_same b ip6tables hb, eq_of_same c chain hc) (sym gone)
          | inr hc ↦ elim (Bool-cases (same c output)) [
            | inl ho ↦
                rw (hb, hc, ho, eq_of_same b ip6tables hb, eq_of_same c output ho) (sym there)
            | inr ho ↦ rw (hb, hc, ho) refl
          ]
        ]
        | inr hb ↦ rw hb refl
      ])

module _ (S : System) (N : IsNat S) where
  -- The program takes no such rule for its chains: it fails and changes nothing.
  abbrev pub Refuses : Str → Rule → Type 0
  Refuses bin rule =
      (chain : Str) (s : S.State) (rules : List Rule)
      → N.view s bin chain ≡ some rules
      → (s' : S.State) × (code : ℕ) × (spawn S false bin (with_wait (nat (codes "-A") chain rule)) s
          ≡ (exited (suc code), s'))
        × (N.view s' ≡ N.view s)

  -- From any state whose tables are `v` the command fails and leaves the tables `w`.
  abbrev pub Stops : Cmd S → View → View → Type 0
  Stops m v w =
      (s : S.State)
      → N.view s ≡ v
      → (e : CmdError) × (s' : S.State) × (m s ≡ (err e, s')) × (N.view s' ≡ w)

  Stops-then : (m k : Cmd S) (u v w : View) → Goes S N m u v → Stops k v w → Stops (m >> k) u w
  Stops-then m k u v w hm hk s e =
      let (s₁, ran, e₁) = hm s e in let (x, s₂, fails, e₂) = hk s₁ e₁ in (x, s₂, rw ran fails, e₂)

  Stops-skip : (m k : Cmd S) (u v : View) → Stops m u v → Stops (m >> k) u v
  Stops-skip m k u v hm s e = let (x, s₁, fails, e₁) = hm s e in (x, s₁, rw fails refl, e₁)

  Stops-assoc :
      (a b k : Cmd S) (u v w : View)
      → Goes S N (a >> b) u v
      → Stops k v w
      → Stops (a >> (b >> k)) u w
  Stops-assoc a b k u v w hab hk s e =
      let (x, s', ran, e') = Stops-then (a >> b) k u v w hab hk s e in
      (x, s', assoc (a s) ∙ ran, e')
    where
      assoc :
          (r : Result CmdError (Unit {0}) × S.State)
          → bind_result r (λ _. b >> k) ≡ bind_result (bind_result r (λ _. b)) (λ _. k)
      assoc (ok x, s) = refl
      assoc (err x, s) = refl

  refuse-Stops :
      (bin chain : Str) (v : View) (rules : List Rule) (rule : Rule)
      → Refuses bin rule
      → Stops
          (append S bin chain rule)
          (put v bin chain (some rules))
          (put v bin chain (some rules))
  refuse-Stops bin chain v rules rule refuses s e =
      let (s', code, ran, e') =
        refuses chain s rules (rw (e, put_same v bin chain (some rules)) refl) in
      (_, s', cmd_fails S N bin (nat (codes "-A") chain rule) false s s' code ran, e' ∙ e)

  -- the rules in front of the refused one are added, those behind it are not
  adds-Stops :
      (chain : Str) (v : View) (f : Str → Rule) (pre post : List Str) (bad : Str)
      (rules : List Rule)
      → All (N.accepted ip6tables) (map f pre)
      → Refuses ip6tables (f bad)
      → Stops
          (for_each (pre ++ bad ∷ post) (λ x. append S ip6tables chain (f x)))
          (put v ip6tables chain (some rules))
          (put v ip6tables chain (some (rules ++ map f pre)))
  unfolding for_each
  adds-Stops chain v f [] post bad rules h refuses = rw (append-nil rules) (
      Stops-skip (append S ip6tables chain (f bad))
        (for_each post (λ x. append S ip6tables chain (f x))) _ _
        (refuse-Stops ip6tables chain v rules (f bad) refuses))
  adds-Stops chain v f (x ∷ pre) post bad rules (hx, h) refuses =
      rw (← append_assoc rules (f x ∷ []) (map f pre)) (
        Stops-then (append S ip6tables chain (f x))
          (for_each (pre ++ bad ∷ post) (λ y. append S ip6tables chain (f y))) _
          (put v ip6tables chain (some (rules ++ f x ∷ []))) _
          (add-Goes S N ip6tables chain v rules (f x) hx)
          (adds-Stops chain v f pre post bad (rules ++ f x ∷ []) h refuses))

  -- the rules that the IPv6 chain is left with
  abbrev partial : Str → List Str → List Rule
  partial tcp pre = loopback_rule ∷ map (tcp_rule tcp) pre

  v6-Stops :
      (chain tcp : Str) (v : View) (subnets pre post : List Str) (bad : Str)
      → subnets ≡ pre ++ bad ∷ post
      → N.accepted ip6tables loopback_rule
      → All (N.accepted ip6tables) (map (tcp_rule tcp) pre)
      → Refuses ip6tables (tcp_rule tcp bad)
      → Stops (install_v6 S chain tcp subnets) v (put v ip6tables chain (some (partial tcp pre)))
  unfolding install_v6
  v6-Stops chain tcp v [] [] post bad split hl ht refuses = cc
  v6-Stops chain tcp v [] (p ∷ pre) post bad split hl ht refuses = cc
  v6-Stops chain tcp v (c ∷ cs) pre post bad split hl ht refuses =
      Stops-assoc (iptables_create_chain S ip6tables chain)
        (iptables_cmd S ip6tables (nat (codes "-F") chain [])) _ v (put v ip6tables chain (some []))
        _ (fresh-Goes S N ip6tables chain v)
        (Stops-then _ _ _ (put v ip6tables chain (some (loopback_rule ∷ []))) _
          (add-Goes S N ip6tables chain v [] loopback_rule hl)
          (Stops-skip (for_each (c ∷ cs) (λ x. append S ip6tables chain (tcp_rule tcp x)))
            (append S ip6tables output (jump_rule chain)) _ _
            (rw split
              (adds-Stops chain v (tcp_rule tcp) pre post bad (loopback_rule ∷ []) ht refuses))))

  -- the IPv4 part, and then the refusal
  install-Stops :
      (chain : Str) (tcp dns_port : ℕ) (v4 v6 pre post : List Str) (bad : Str) (dns : Bool)
      (v : View) (out : List Rule)
      → same output chain ≡ false
      → v iptables output ≡ some out
      → All (N.accepted iptables) (chain_v4 S.read_file tcp dns_port v4 dns)
      → v6 ≡ pre ++ bad ∷ post
      → N.accepted ip6tables loopback_rule
      → All (N.accepted ip6tables) (map (tcp_rule (to_string tcp)) pre)
      → Refuses ip6tables (tcp_rule (to_string tcp) bad)
      → Stops (install S chain tcp dns_port v4 v6 dns) v (
          put
            (hooked v iptables chain (chain_v4 S.read_file tcp dns_port v4 dns) out)
            ip6tables
            chain
            (some (partial (to_string tcp) pre)))
  unfolding install
  install-Stops chain tcp dns_port v4 v6 pre post bad dns v out other there h₄ split hl ht refuses =
      let tcp_s = to_string tcp in
      let dns_s = to_string dns_port in
      let ns = read_local_nameservers_v4 S.read_file in
      let d = dns_part dns dns_s ns in
      let t = map (tcp_rule tcp_s) v4 in
      let (hd, htl) = All-split (N.accepted iptables) d (t ++ local_rule ∷ []) h₄ in
      let (h4, hlast) = All-split (N.accepted iptables) t (local_rule ∷ []) htl in
      Stops-assoc (iptables_create_chain S iptables chain)
        (iptables_cmd S iptables (nat (codes "-F") chain [])) _ v (put v iptables chain (some [])) _
        (fresh-Goes S N iptables chain v)
        (Stops-then _ _ _ (put v iptables chain (some d)) _ (dns-Goes S N chain dns_s v ns dns hd) (
          Stops-then _ _ _ (put v iptables chain (some (d ++ t))) _
            (adds-Goes S N iptables chain v (tcp_rule tcp_s) v4 d h4)
            (Stops-then _ _ _ (put v iptables chain (some (rules_v4 tcp_s d v4))) _
              (rw (← append_assoc d t (local_rule ∷ []))
                (add-Goes S N iptables chain v (d ++ t) local_rule hlast.0))
              (Stops-then _ _ _ _ _
                (hook-Goes S N iptables chain v (rules_v4 tcp_s d v4) out other there)
                (v6-Stops chain tcp_s _ v6 pre post bad split hl ht refuses)))))

  -- removing an IPv6 chain to which nothing jumps
  bare-Goes :
      (chain : Str) (v : View) (rules out : List Rule)
      → same output chain ≡ false
      → Clean v ip6tables chain out
      → Goes S N (remove_one S ip6tables chain) (put v ip6tables chain (some rules)) v
  bare-Goes chain v rules out other clean =
      let (there, gone, unused, only) = clean in
      rw (bare v chain rules out other clean) at (
        remove_one-Goes S N ip6tables chain (put v ip6tables chain (some rules)) out rules other
          (put_other v ip6tables chain output (some rules) other ∙ there)
          (put_same v ip6tables chain (some rules)) (omega (arith, unused))
          (λ c rs ho hc h. only c rs ho hc (rw hc at h)))

  -- An install that ip6tables stops at a rule leaves the IPv4 rules in force, and part of the IPv6
  -- chain; the removal behind it leaves the tables as they were.
  pub refused-remove :
      (chain : Str) (tcp dns_port : ℕ) (v4 v6 pre post : List Str) (bad : Str) (dns : Bool)
      (s : S.State) (out₄ out₆ : List Rule)
      → same output chain ≡ false
      → Clean (N.view s) iptables chain out₄
      → Clean (N.view s) ip6tables chain out₆
      → All (N.accepted iptables) (chain_v4 S.read_file tcp dns_port v4 dns)
      → v6 ≡ pre ++ bad ∷ post
      → N.accepted ip6tables loopback_rule
      → All (N.accepted ip6tables) (map (tcp_rule (to_string tcp)) pre)
      → Refuses ip6tables (tcp_rule (to_string tcp) bad)
      → (e : CmdError) × (s₁ : S.State) × (install S chain tcp dns_port v4 v6 dns s ≡ (err e, s₁))
        × (N.view (remove S chain true s₁).1 ≡ N.view s)
  unfolding remove
  refused-remove chain tcp dns_port v4 v6 pre post bad dns s out₄ out₆ other clean₄ clean₆ h₄ split
        hl ht refuses =
      let v = N.view s in
      let r₄ = chain_v4 S.read_file tcp dns_port v4 dns in
      let r₆ = partial (to_string tcp) pre in
      let (e, s₁, fails, left) =
        install-Stops chain tcp dns_port v4 v6 pre post bad dns v out₄ other clean₄.0 h₄ split hl ht
          refuses s refl in
      let w = put v ip6tables chain (some r₆) in
      let (s₂, ran, restored) =
        Goes->> S N (remove_one S iptables chain) (remove_one S ip6tables chain)
          (hooked w iptables chain r₄ out₄) w v
          (undo-Goes S N iptables chain w r₄ out₄ other clean₄)
          (bare-Goes chain v r₆ out₆ other clean₆) s₁ (left ∙ apart v chain r₄ r₆ out₄) in
      (e, s₁, fails, ap (λ r. N.view r.1) ran ∙ restored)
