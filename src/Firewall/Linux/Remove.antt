-- ===== src/Firewall/Linux/Remove.antt =====
-- rushtle/src/firewall/linux.rs, `remove`: what it leaves in the NAT tables.
use kubectl_sshuttle.Base.{
  ℕ, zero, suc, ◌≡◌, ◌≤◌, refl, sym, ◌∙◌, Bool, true, false, none, some, List, [], arith, codes,
  same, same_refl, same_comm, Result, ok, err, Bool-cases, Option-cases, inl, inr,
}
use kubectl_sshuttle.Text.Utf8.{Str}
use kubectl_sshuttle.Firewall.System.{System, Run, CmdError, ◌>>◌, bind_result, or_else, ignore}
use kubectl_sshuttle.Firewall.Linux.{
  iptables, ip6tables, output, jump_rule, nat, iptables_cmd, iptables_cmd_quiet, deleted_result,
  on_deleted, drain, remove_one, remove,
}
use kubectl_sshuttle.Firewall.Linux.Nat.{
  Rule, View, put, put_same, put_other, put-put, put_id, delete_first, Free, IsNat,
}
use kubectl_sshuttle.Firewall.Linux.Goes.{Goes, Leaves, Goes->>, cmd_ok, cmd_fails}
use kubectl_sshuttle.Firewall.Linux.Jumps.{without, count, purge, purge-without, without-Free}

-- no chain but OUTPUT and the chain itself has a jump to the chain
abbrev pub Only : View → Str → Str → Type 0
Only v bin chain =
    (c : Str) (rules : List Rule)
    → same c output ≡ false
    → same c chain ≡ false
    → v bin c ≡ some rules
    → Free chain rules

-- OUTPUT without the jumps, and no chain
abbrev pub unhooked : View → Str → Str → List Rule → View
unhooked v bin chain out =
    put (put v bin output (some (without (jump_rule chain) out))) bin chain none

module _ (S : System) (N : IsNat S) where
  -- The rounds of the loop remove as many jumps, or all.
  pub drain-Goes :
      (n : ℕ) (bin chain : Str) (v : View) (out : List Rule)
      → v bin output ≡ some out
      → Goes S N (drain S n bin chain) v (put v bin output (some (purge n (jump_rule chain) out)))
  unfolding drain
  drain-Goes zero bin chain v out there s e =
      (s, refl, e ∙ sym (put_id v bin output (some out) there))
  drain-Goes (suc n) bin chain v out there s e =
      let args = nat (codes "-D") output (jump_rule chain) in
      elim (Option-cases (delete_first (jump_rule chain) out)) [
        | inl gone ↦
            let (s', code, ran, e') =
              N.delete_none true bin output (jump_rule chain) s out (rw e there) gone in
            (
              s',
              rw (cmd_fails S N bin args true s s' code ran) refl,
              e' ∙ e ∙ rw (purge, gone) (sym (put_id v bin output (some out) there)),
            )
        | inr (left, found) ↦
            let (s₁, ran, e₁) =
              N.delete true bin output (jump_rule chain) s out left (rw e there) found in
            let v₁ = put v bin output (some left) in
            let (s', more, e') =
              drain-Goes n bin chain v₁ left (put_same v bin output (some left)) s₁ (rw e at e₁) in
            (
              s',
              rw (cmd_ok S N bin args true s s₁ ran, more) refl,
              e'
                  ∙ rw (purge, found)
                      (put-put v bin output (some left) (some (purge n (jump_rule chain) left))),
            )
      ]

  -- `-F`, whatever its outcome, on a chain that there is
  empty-Goes :
      (bin chain : Str) (v : View) (rules : List Rule)
      → v bin chain ≡ some rules
      → Goes S N
          (ignore (iptables_cmd_quiet S bin (nat (codes "-F") chain [])))
          v
          (put v bin chain (some []))
  empty-Goes bin chain v rules there s e =
      let (s', ran, e') = N.flush true bin chain s rules (rw e there) in
      (s', rw (cmd_ok S N bin (nat (codes "-F") chain []) true s s' ran) refl, rw e at e')

  erase-Goes :
      (bin chain : Str) (v : View)
      → v bin chain ≡ some []
      → ((c : Str) (rules : List Rule) → v bin c ≡ some rules → Free chain rules)
      → Goes S N
          (ignore (
            or_else
              (iptables_cmd_quiet S bin (nat (codes "-X") chain []))
              (iptables_cmd S bin (nat (codes "-X") chain []))))
          v
          (put v bin chain none)
  erase-Goes bin chain v there free s e =
      let (s', ran, e') = N.erase true bin chain s (rw e there) (rw e free) in
      (s', rw (cmd_ok S N bin (nat (codes "-X") chain []) true s s' ran) refl, rw e at e')

  -- no jump to the chain is left
  drained-Free :
      (bin chain : Str) (v : View) (out : List Rule)
      → Only v bin chain
      → (c : Str) (rules : List Rule)
      → put (put v bin output (some (without (jump_rule chain) out))) bin chain (some []) bin c
        ≡ some rules
      → Free chain rules
  drained-Free bin chain v out only c rules h = elim (Bool-cases (same c chain)) [
    | inl here ↦
        let e : some [] ≡ some rules = rw (same_refl bin, here) at h in
        let e' : [] ≡ rules = ground arith in rw (← e') tt
    | inr away ↦ elim (Bool-cases (same c output)) [
      | inl main ↦
          let e : some (without (jump_rule chain) out) ≡ some rules =
            rw (same_refl bin, away, main) at h in
          let e' : without (jump_rule chain) out ≡ rules = ground arith in
          rw (← e') (without-Free chain out)
      | inr more ↦ only c rules more away (rw (same_refl bin, away, more) at h)
    ]
  ]

  pub remove_one-Goes :
      (bin chain : Str) (v : View) (out rules : List Rule)
      → same output chain ≡ false
      → v bin output ≡ some out
      → v bin chain ≡ some rules
      → count (jump_rule chain) out ≤ 17
      → Only v bin chain
      → Goes S N (remove_one S bin chain) v (unhooked v bin chain out)
  unfolding remove_one
  remove_one-Goes bin chain v out rules other out_there there few only =
      let left = without (jump_rule chain) out in
      let v₁ = put v bin output (some left) in
      let v₂ = put v₁ bin chain (some []) in
      let enough = purge-without 17 (jump_rule chain) out few in
      let drained : Goes S N (drain S 17 bin chain) v v₁ =
        rw (← enough) (drain-Goes 17 bin chain v out out_there) in
      let still : v₁ bin chain ≡ some rules =
        put_other v bin output chain (some left) (same_comm chain output ∙ other) ∙ there in
      let erased = rw (put-put v₁ bin chain (some []) none) at (
        erase-Goes bin chain v₂ (put_same v₁ bin chain (some []))
          (drained-Free bin chain v out only)) in
      Goes->> S N _ _ v v₁ _ drained
        (Goes->> S N _ _ v₁ v₂ _ (empty-Goes bin chain v₁ rules still) erased)

  -- Where the chain has at most 17 jumps from OUTPUT and none from another chain, removing succeeds:
  -- OUTPUT is left without the jumps, the chain is gone, and nothing else is changed.
  pub remove_one-unhooked :
      (bin chain : Str) (s : S.State) (out rules : List Rule)
      → same output chain ≡ false
      → N.view s bin output ≡ some out
      → N.view s bin chain ≡ some rules
      → count (jump_rule chain) out ≤ 17
      → Only (N.view s) bin chain
      → Leaves S N (remove_one S bin chain) s (unhooked (N.view s) bin chain out)
  remove_one-unhooked bin chain s out rules other out_there there few only =
      remove_one-Goes bin chain (N.view s) out rules other out_there there few only s refl

-- commands that succeed, one behind the other
module _ {T : Type 0} where
  abbrev Sure : Run T (Unit {0}) → Type 0
  Sure m = (s : T) → (m s).0 ≡ ok tt

  Sure-then : (m k : Run T (Unit {0})) → Sure m → Sure k → Sure (m >> k)
  Sure-then m k hm hk s = go (m s) (hm s)
    where
      go : (r : Result CmdError (Unit {0}) × T) → r.0 ≡ ok tt → (bind_result r (λ _. k)).0 ≡ ok tt
      go (ok u, t) h = hk t
      go (err e, t) h = cc

  Sure-deleted : (m k : Run T (Unit {0})) → Sure k → Sure (on_deleted m k)
  Sure-deleted m k hk s = go (m s)
    where
      go : (r : Result CmdError (Unit {0}) × T) → (deleted_result r k).0 ≡ ok tt
      go (ok u, t) = hk t
      go (err e, t) = refl

  Sure-ignore : {A : Type 0} (m : Run T A) → Sure (ignore m)
  Sure-ignore m s = refl

drain-Sure : (S : System) (n : ℕ) (bin chain : Str) → Sure (drain S n bin chain)
unfolding drain
drain-Sure S zero bin chain s = refl
drain-Sure S (suc n) bin chain s =
    Sure-deleted (iptables_cmd_quiet S bin (nat (codes "-D") output (jump_rule chain)))
      (drain S n bin chain) (drain-Sure S n bin chain) s

remove_one-Sure : (S : System) (bin chain : Str) → Sure (remove_one S bin chain)
unfolding remove_one
remove_one-Sure S bin chain =
    let flush = iptables_cmd_quiet S bin (nat (codes "-F") chain []) in
    let erase =
      or_else (iptables_cmd_quiet S bin (nat (codes "-X") chain []))
        (iptables_cmd S bin (nat (codes "-X") chain [])) in
    Sure-then (drain S 17 bin chain) (ignore flush >> ignore erase) (drain-Sure S 17 bin chain)
      (Sure-then (ignore flush) (ignore erase) (Sure-ignore flush) (Sure-ignore erase))

-- `remove` reports success whatever the programs do.
pub remove-ok :
    (S : System) (chain : Str) (v6 : Bool) (s : S.State) → (remove S chain v6 s).0 ≡ ok tt
unfolding remove
remove-ok S chain false s = remove_one-Sure S iptables chain s
remove-ok S chain true s =
    Sure-then (remove_one S iptables chain) (remove_one S ip6tables chain)
      (remove_one-Sure S iptables chain) (remove_one-Sure S ip6tables chain) s
