-- ===== src/Firewall/Linux/Goes.antt =====
-- rushtle/src/firewall/linux.rs: what its commands do to the NAT tables, one by one and in sequence.
use kubectl_sshuttle.Base.{
  ℕ, suc, ◌≡◌, refl, ◌∙◌, Bool, true, false, none, some, List, [], ◌∷◌, ◌++◌, codes, Result, ok,
  err, Option-cases, inl, inr,
}
use kubectl_sshuttle.Text.Utf8.{Str}
use kubectl_sshuttle.Firewall.System.{exited, System, CmdError, bad_status, bind_result, ◌>>◌}
use kubectl_sshuttle.Firewall.Linux.{
  jump_rule, nat, with_wait, Cmd, spawn, iptables_cmd, iptables_cmd_inner, iptables_create_chain,
  append,
}
use kubectl_sshuttle.Firewall.Linux.Nat.{Rule, View, put, put_same, put-put, IsNat}

module _ (S : System) (N : IsNat S) where
  -- From any state whose tables are `v` the command succeeds and leaves the tables `v'`.
  abbrev pub Goes : Cmd S → View → View → Type 0
  Goes m v v' =
      (s : S.State) → N.view s ≡ v → (s' : S.State) × (m s ≡ (ok tt, s')) × (N.view s' ≡ v')

  -- From this state the command succeeds and leaves the tables `v'`.
  abbrev pub Leaves : Cmd S → S.State → View → Type 0
  Leaves m s v' = (s' : S.State) × (m s ≡ (ok tt, s')) × (N.view s' ≡ v')

  -- a command whose program succeeds
  pub cmd_ok :
      (bin : Str) (args : List Str) (q : Bool) (s s' : S.State)
      → spawn S q bin (with_wait args) s ≡ (exited 0, s')
      → iptables_cmd_inner S bin args q s ≡ (ok tt, s')
  unfolding iptables_cmd_inner
  cmd_ok bin args q s s' h = rw h refl

  pub cmd_fails :
      (bin : Str) (args : List Str) (q : Bool) (s s' : S.State) (code : ℕ)
      → spawn S q bin (with_wait args) s ≡ (exited (suc code), s')
      → iptables_cmd_inner S bin args q s ≡ (err (bad_status bin args (suc code)), s')
  unfolding iptables_cmd_inner
  cmd_fails bin args q s s' code h = rw h refl

  pub Goes->> : (m k : Cmd S) (u v w : View) → Goes m u v → Goes k v w → Goes (m >> k) u w
  Goes->> m k u v w hm hk s e =
      let (s₁, ran, e₁) = hm s e in let (s₂, ran', e₂) = hk s₁ e₁ in (s₂, rw ran ran', e₂)

  -- three commands, the first two of which are known together
  pub Goes-assoc :
      (a b k : Cmd S) (u v w : View) → Goes (a >> b) u v → Goes k v w → Goes (a >> (b >> k)) u w
  Goes-assoc a b k u v w hab hk s e =
      let (s', ran, e') = Goes->> (a >> b) k u v w hab hk s e in (s', assoc (a s) ∙ ran, e')
    where
      assoc :
          (r : Result CmdError (Unit {0}) × S.State)
          → bind_result r (λ _. b >> k) ≡ bind_result (bind_result r (λ _. b)) (λ _. k)
      assoc (ok x, s) = refl
      assoc (err x, s) = refl

  create-Goes :
      (bin chain : Str) (v : View)
      → v bin chain ≡ none
      → Goes (iptables_create_chain S bin chain) v (put v bin chain (some []))
  unfolding iptables_create_chain
  create-Goes bin chain v h s e =
      let (s', ran, e') = N.create true bin chain s (rw e h) in
      (s', rw (cmd_ok bin (nat (codes "-N") chain []) true s s' ran) refl, rw e at e')

  reuse-Goes :
      (bin chain : Str) (v : View) (rules : List Rule)
      → v bin chain ≡ some rules
      → Goes (iptables_create_chain S bin chain) v v
  unfolding iptables_create_chain
  reuse-Goes bin chain v rules h s e =
      let (s₁, code, ran₁, e₁) = N.create_again true bin chain s rules (rw e h) in
      let (s₂, ran₂, e₂) = N.list true bin chain s₁ rules (rw (e₁, e) h) in
      (
        s₂,
        rw
            (
              cmd_fails bin (nat (codes "-N") chain []) true s s₁ code ran₁,
              cmd_ok bin (nat (codes "-L") chain (codes "-n" ∷ [])) true s₁ s₂ ran₂,
            )
            refl,
        e₂ ∙ e₁ ∙ e,
      )

  flush-Goes :
      (bin chain : Str) (v : View) (rules : List Rule)
      → v bin chain ≡ some rules
      → Goes
          (iptables_cmd_inner S bin (nat (codes "-F") chain []) false)
          v
          (put v bin chain (some []))
  flush-Goes bin chain v rules h s e =
      let (s', ran, e') = N.flush false bin chain s rules (rw e h) in
      (s', cmd_ok bin (nat (codes "-F") chain []) false s s' ran, rw e at e')

  -- A chain is created, or a stale one is emptied.
  pub fresh-Goes :
      (bin chain : Str) (v : View)
      → Goes
          (iptables_create_chain S bin chain >> iptables_cmd S bin (nat (codes "-F") chain []))
          v
          (put v bin chain (some []))
  fresh-Goes bin chain v = elim (Option-cases (v bin chain)) [
    | inl none_there ↦ rw (← put-put v bin chain (some []) (some [])) (
        Goes->> _ _ v (put v bin chain (some [])) _ (create-Goes bin chain v none_there)
          (flush-Goes bin chain (put v bin chain (some [])) [] (put_same v bin chain (some []))))
    | inr (rules, there) ↦
        Goes->> _ _ v v _ (reuse-Goes bin chain v rules there) (flush-Goes bin chain v rules there)
  ]

  -- a rule behind those of a chain
  pub add-Goes :
      (bin chain : Str) (v : View) (rules : List Rule) (rule : Rule)
      → N.accepted bin rule
      → Goes
          (append S bin chain rule)
          (put v bin chain (some rules))
          (put v bin chain (some (rules ++ rule ∷ [])))
  add-Goes bin chain v rules rule ok_rule s e =
      let (s', ran, e') =
        N.add false bin chain rule s rules (rw (e, put_same v bin chain (some rules)) refl)
          ok_rule in
      (
        s',
        cmd_ok bin (nat (codes "-A") chain rule) false s s' ran,
        (rw e at e') ∙ put-put v bin chain (some rules) (some (rules ++ rule ∷ [])),
      )

  pub jump-Goes :
      (bin chain target : Str) (v : View) (rules there : List Rule)
      → v bin chain ≡ some rules
      → v bin target ≡ some there
      → Goes
          (append S bin chain (jump_rule target))
          v
          (put v bin chain (some (rules ++ jump_rule target ∷ [])))
  jump-Goes bin chain target v rules there h t s e =
      let (s', ran, e') = N.add_jump false bin chain target s rules there (rw e h) (rw e t) in
      (s', cmd_ok bin (nat (codes "-A") chain (jump_rule target)) false s s' ran, rw e at e')
