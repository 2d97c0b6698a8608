-- ===== src/Firewall/Linux/Install.antt =====
-- rushtle/src/firewall/linux.rs, `install`: what it leaves in the NAT tables.
use kubectl_sshuttle.Base.{
  ℕ, ◌≡◌, ◌≢◌, refl, sym, ap, ◌∙◌, Bool, true, false, Option, some, List, [], ◌∷◌, ◌++◌, map,
  append_assoc, append-nil, codes, same, All, All-split,
}
use kubectl_sshuttle.Text.Utf8.{Str}
use kubectl_sshuttle.Text.Numbers.{to_string}
use kubectl_sshuttle.Firewall.System.{System, ◌>>◌, for_each}
use kubectl_sshuttle.Firewall.Linux.{
  iptables, ip6tables, output, jump_rule, dns_rules, tcp_rule, local_rule, loopback_rule, nat, Cmd,
  append, iptables_cmd, iptables_create_chain, install_dns, install_v6, install,
}
use kubectl_sshuttle.Firewall.Linux.Nameservers.{read_local_nameservers_v4}
use kubectl_sshuttle.Firewall.Linux.Expected
use kubectl_sshuttle.Firewall.Linux.Nat.{Rule, View, put, put_same, put_other, IsNat}
use kubectl_sshuttle.Firewall.Linux.Goes.{
  Goes, Leaves, Goes->>, Goes-assoc, fresh-Goes, add-Goes, jump-Goes,
}

-- the rules of the two chains, in order: for DNS one for each name server, or one for all
abbrev pub dns_part : Bool → Str → List Str → List Rule
dns_part true port [] = Expected.all_dns port ∷ []
dns_part true port (ns ∷ rest) = map (Expected.dns_to port) (ns ∷ rest)
dns_part false port nameservers = []

abbrev pub rules_v4 : Str → List Rule → List Str → List Rule
rules_v4 tcp dns subnets = dns ++ (map (Expected.tcp_to tcp) subnets ++ Expected.not_local ∷ [])

-- the rules of the IPv4 chain, with the name servers that are read
abbrev pub chain_v4 : (Str → Option Str) → ℕ → ℕ → List Str → Bool → List Rule
chain_v4 read tcp dns_port subnets dns =
    rules_v4 (to_string tcp) (dns_part dns (to_string dns_port) (read_local_nameservers_v4 read))
      subnets

abbrev pub rules_v6 : Str → List Str → List Rule
rules_v6 tcp subnets = Expected.not_loopback ∷ map (Expected.tcp_to tcp) subnets

-- the chain with its rules, and a jump to it behind those of OUTPUT
abbrev pub hooked : View → Str → Str → List Rule → List Rule → View
hooked v bin chain rules out =
    put (put v bin chain (some rules)) bin (codes "OUTPUT")
      (some (out ++ Expected.jump_to chain ∷ []))

abbrev pub hooked_v6 : View → Str → Str → List Str → List Rule → View
hooked_v6 v chain tcp [] out = v
hooked_v6 v chain tcp (c ∷ cs) out = hooked v (codes "ip6tables") chain (rules_v6 tcp (c ∷ cs)) out

dns_rules-dns_part : (port : Str) (ns : List Str) → dns_rules port ns ≡ dns_part true port ns
unfolding dns_rules
dns_rules-dns_part port [] = refl
dns_rules-dns_part port (n ∷ ns) = refl

module _ (S : System) (N : IsNat S) where
  -- rules added one by one behind those of a chain
  pub adds-Goes :
      {A : Type 0} (bin chain : Str) (v : View) (f : A → Rule) (xs : List A) (rules : List Rule)
      → All (N.accepted bin) (map f xs)
      → Goes S N
          (for_each xs (λ x. append S bin chain (f x)))
          (put v bin chain (some rules))
          (put v bin chain (some (rules ++ map f xs)))
  unfolding for_each
  adds-Goes bin chain v f [] rules h =
      λ s e. (s, refl, e ∙ ap (λ rs. put v bin chain (some rs)) (sym (append-nil rules)))
  adds-Goes bin chain v f (x ∷ xs) rules (hx, h) = rw (← append_assoc rules (f x ∷ []) (map f xs)) (
      Goes->> S N (append S bin chain (f x)) (for_each xs (λ y. append S bin chain (f y)))
        (put v bin chain (some rules)) (put v bin chain (some (rules ++ f x ∷ []))) _
        (add-Goes S N bin chain v rules (f x) hx)
        (adds-Goes bin chain v f xs (rules ++ f x ∷ []) h))

  map_id : (rs : List Rule) → map (λ r. r) rs ≡ rs
  map_id [] = refl
  map_id (r ∷ rs) = ap (λ t. r ∷ t) (map_id rs)

  pub dns-Goes :
      (chain port : Str) (v : View) (ns : List Str) (dns : Bool)
      → All (N.accepted iptables) (dns_part dns port ns)
      → Goes S N
          (install_dns S chain port ns dns)
          (put v iptables chain (some []))
          (put v iptables chain (some (dns_part dns port ns)))
  unfolding install_dns
  dns-Goes chain port v ns false h s e = (s, refl, e)
  dns-Goes chain port v ns true h s e =
      let rs = dns_part true port ns in
      let (s', ran, e') = adds-Goes iptables chain v (λ r. r) rs [] (rw (map_id rs) h) s e in
      (
        s',
        rw (dns_rules-dns_part port ns) ran,
        e' ∙ ap (λ t. put v iptables chain (some t)) (map_id rs),
      )

  -- the jump into a chain that has its rules
  pub hook-Goes :
      (bin chain : Str) (v : View) (rules out : List Rule)
      → same output chain ≡ false
      → v bin output ≡ some out
      → Goes S N
          (append S bin output (jump_rule chain))
          (put v bin chain (some rules))
          (hooked v bin chain rules out)
  hook-Goes bin chain v rules out other there =
      jump-Goes S N bin output chain (put v bin chain (some rules)) out rules
        (put_other v bin chain output (some rules) other ∙ there)
        (put_same v bin chain (some rules))

  -- the IPv4 part, from the new chain on
  v4-Goes :
      (chain tcp dns_port : Str) (v w : View) (subnets ns : List Str) (dns : Bool) (out : List Rule)
      (k : Cmd S)
      → same output chain ≡ false
      → v iptables output ≡ some out
      → All (N.accepted iptables) (dns_part dns dns_port ns)
      → All (N.accepted iptables) (map (tcp_rule tcp) subnets)
      → N.accepted iptables local_rule
      → Goes S N k (hooked v iptables chain (rules_v4 tcp (dns_part dns dns_port ns) subnets) out) w
      → Goes S N
          (install_dns S chain dns_port ns dns
            >> (for_each subnets (λ c. append S iptables chain (tcp_rule tcp c))
                >> (append S iptables chain local_rule
                    >> (append S iptables output (jump_rule chain) >> k))))
          (put v iptables chain (some []))
          w
  v4-Goes chain tcp dns_port v w subnets ns dns out k other there hd ht hl hk =
      let d = dns_part dns dns_port ns in
      let t = map (tcp_rule tcp) subnets in
      Goes->> S N _ _ _ (put v iptables chain (some d)) _ (dns-Goes chain dns_port v ns dns hd) (
        Goes->> S N _ _ _ (put v iptables chain (some (d ++ t))) _
          (adds-Goes iptables chain v (tcp_rule tcp) subnets d ht)
          (Goes->> S N _ _ _ (put v iptables chain (some (rules_v4 tcp d subnets))) _
            (rw (← append_assoc d t (local_rule ∷ []))
              (add-Goes S N iptables chain v (d ++ t) local_rule hl))
            (Goes->> S N _ _ _ _ _
              (hook-Goes iptables chain v (rules_v4 tcp d subnets) out other there) hk)))

  v6-Goes :
      (chain tcp : Str) (v : View) (subnets : List Str) (out : List Rule)
      → same output chain ≡ false
      → (subnets ≢ [] → v ip6tables output ≡ some out)
      → All (N.accepted ip6tables) (rules_v6 tcp subnets)
      → Goes S N (install_v6 S chain tcp subnets) v (hooked_v6 v chain tcp subnets out)
  unfolding install_v6
  v6-Goes chain tcp v [] out other there h = λ s e. (s, refl, e)
  v6-Goes chain tcp v (c ∷ cs) out other there (hl, ht) =
      Goes-assoc S N (iptables_create_chain S ip6tables chain)
        (iptables_cmd S ip6tables (nat (codes "-F") chain [])) _ v (put v ip6tables chain (some []))
        _ (fresh-Goes S N ip6tables chain v)
        (Goes->> S N _ _ _ (put v ip6tables chain (some (loopback_rule ∷ []))) _
          (add-Goes S N ip6tables chain v [] loopback_rule hl)
          (Goes->> S N _ _ _ (put v ip6tables chain (some (rules_v6 tcp (c ∷ cs)))) _
            (adds-Goes ip6tables chain v (tcp_rule tcp) (c ∷ cs) (loopback_rule ∷ []) ht)
            (hook-Goes ip6tables chain v (rules_v6 tcp (c ∷ cs)) out other (there (λ e. cc)))))

  pub install-Goes :
      (chain : Str) (tcp dns_port : ℕ) (v4 v6 : List Str) (dns : Bool) (v : View)
      (out₄ out₆ : List Rule)
      → same output chain ≡ false
      → v iptables output ≡ some out₄
      → (v6 ≢ [] → v ip6tables output ≡ some out₆)
      → All (N.accepted iptables) (chain_v4 S.read_file tcp dns_port v4 dns)
      → All (N.accepted ip6tables) (rules_v6 (to_string tcp) v6)
      → Goes S N (install S chain tcp dns_port v4 v6 dns) v (
          hooked_v6
            (hooked v iptables chain (chain_v4 S.read_file tcp dns_port v4 dns) out₄)
            chain
            (to_string tcp)
            v6
            out₆)
  unfolding install
  install-Goes chain tcp dns_port v4 v6 dns v out₄ out₆ other there₄ there₆ h₄ h₆ =
      let tcp_s = to_string tcp in
      let dns_s = to_string dns_port in
      let d = dns_part dns dns_s (read_local_nameservers_v4 S.read_file) in
      let (hd, htl) =
        All-split (N.accepted iptables) d (map (tcp_rule tcp_s) v4 ++ local_rule ∷ []) h₄ in
      let (ht, hl) =
        All-split (N.accepted iptables) (map (tcp_rule tcp_s) v4) (local_rule ∷ []) htl in
      Goes-assoc S N (iptables_create_chain S iptables chain)
        (iptables_cmd S iptables (nat (codes "-F") chain [])) _ v (put v iptables chain (some [])) _
        (fresh-Goes S N iptables chain v)
        (v4-Goes chain tcp_s dns_s v _ v4 (read_local_nameservers_v4 S.read_file) dns out₄
          (install_v6 S chain tcp_s v6) other there₄ hd ht hl.0
          (v6-Goes chain tcp_s (hooked v iptables chain (rules_v4 tcp_s d v4) out₄) v6 out₆ other
            there₆ h₆))

  -- Where there are OUTPUT chains, and the system takes the rules, installing succeeds. The chain,
  -- new or emptied, then has the rules for DNS, for the subnets and for local addresses, in this
  -- order, OUTPUT has a jump to it behind its rules, and nothing else of the IPv4 tables is changed;
  -- the IPv6 tables are changed the same way where there are IPv6 subnets, and only then.
  pub install-hooked :
      (chain : Str) (tcp dns_port : ℕ) (v4 v6 : List Str) (dns : Bool) (s : S.State)
      (out₄ out₆ : List Rule)
      → same (codes "OUTPUT") chain ≡ false
      → N.view s (codes "iptables") (codes "OUTPUT") ≡ some out₄
      → (v6 ≢ [] → N.view s (codes "ip6tables") (codes "OUTPUT") ≡ some out₆)
      → All (N.accepted iptables) (chain_v4 S.read_file tcp dns_port v4 dns)
      → All (N.accepted ip6tables) (rules_v6 (to_string tcp) v6)
      → Leaves S N (install S chain tcp dns_port v4 v6 dns) s (
          hooked_v6
            (hooked
              (N.view s)
              (codes "iptables")
              chain
              (chain_v4 S.read_file tcp dns_port v4 dns)
              out₄)
            chain
            (to_string tcp)
            v6
            out₆)
  install-hooked chain tcp dns_port v4 v6 dns s out₄ out₆ other there₄ there₆ h₄ h₆ =
      install-Goes chain tcp dns_port v4 v6 dns (N.view s) out₄ out₆ other there₄ there₆ h₄ h₆ s
        refl
