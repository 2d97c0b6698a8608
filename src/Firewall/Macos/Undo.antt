-- ===== src/Firewall/Macos/Undo.antt =====
-- rushtle/src/firewall/macos.rs: what `remove` undoes of `install`, and what it does not.
use kubectl_sshuttle.Base.{
  ℕ, zero, suc, ◌≡◌, ◌≢◌, refl, sym, ap, ◌∙◌, Bool, Option, none, some, List, [], ◌∷◌, ◌++◌, codes,
  ok, err, All, arith,
}
use kubectl_sshuttle.Text.Utf8.{Str}
use kubectl_sshuttle.Text.Slices.{lines, strip_prefix, trim}
use kubectl_sshuttle.Text.Laws.{strip_prefix-append}
use kubectl_sshuttle.Firewall.Macos.{
  Ran, broken, ended, find_token, checked, disable_args, Pf, PfError, pf_context, anchor_of,
  rules_text, Mac, pfctl, pfctl_with_stdin, load_args, flush_args, enable_args, after_enable,
  after_load, load_rules, pf_install, disable, undo, pf_remove,
}

module _ (P : Pf) where
  -- the token of the first line that tells one
  find_token-told :
      (before after : List Str) (token : Str)
      → All (λ l. strip_prefix (codes "Token : ") l ≡ none) before
      → find_token (before ++ ((codes "Token : " ++ token) ∷ after)) ≡ some (trim token)
  unfolding find_token strip_prefix trim
  find_token-told [] after token h = go _ (strip_prefix-append (codes "Token : ") token)
    where
      go :
          (o : Option Str)
          → o ≡ some token
          → (elim o [ none ↦ find_token after | some t ↦ some (trim t) ]) ≡ some (trim token)
      go none e = cc
      go (some t) e = ground arith
  find_token-told (l ∷ before) after token (hl, h) = rw hl (find_token-told before after token h)

  find_token-untold :
      (ls : List Str)
      → All (λ l. strip_prefix (codes "Token : ") l ≡ none) ls
      → find_token ls ≡ none
  unfolding find_token strip_prefix
  find_token-untold [] h = refl
  find_token-untold (l ∷ ls) (hl, h) = rw hl (find_token-untold ls h)

  -- What pfctl printed tells this token, or none.
  abbrev pub Tells : List Str → Option Str → Type 0
  Tells ls none = All (λ l. strip_prefix (codes "Token : ") l ≡ none) ls
  Tells ls (some word) =
      (before after : List Str) × (token : Str) × (ls
        ≡ before ++ ((codes "Token : " ++ token) ∷ after))
      × All (λ l. strip_prefix (codes "Token : ") l ≡ none) before
      × (word ≡ trim token)

  find_token-Tells : (ls : List Str) (token : Option Str) → Tells ls token → find_token ls ≡ token
  find_token-Tells ls none h = find_token-untold ls h
  find_token-Tells ls (some word) (before, after, token, split, first, trimmed) =
      rw split (find_token-told before after token first ∙ ap some (sym trimmed))

  -- the worlds behind a run of pfctl without input
  abbrev pub behind : List Str → P.World → P.World
  behind args w = (P.run_pfctl args none w).1

  -- what the removal runs
  abbrev pub flushed : Str → P.World → P.World
  flushed chain =
      behind (codes "-a" ∷ (codes "com.rushtle/" ++ chain) ∷ codes "-F" ∷ codes "all" ∷ [])

  abbrev pub given_back : Option Str → P.World → P.World
  given_back none w = w
  given_back (some token) w = behind (codes "-X" ∷ token ∷ []) w

  checked-world : (args : List Str) (r : Ran × P.World) → (checked args r).1 ≡ r.1
  unfolding checked
  checked-world args (broken e, w) = refl
  checked-world args (ended zero stderr, w) = refl
  checked-world args (ended (suc n) stderr, w) = refl

  disable-given_back : (token : Option Str) (w : P.World) → disable P token w ≡ given_back token w
  unfolding disable pfctl
  disable-given_back none w = refl
  disable-given_back (some token) w = checked-world _ (P.run_pfctl (disable_args token) none w)

  loaded :
      (rules : Str) (anchor : Str) (m : Mac P) (out : Str) (w : P.World)
      → rules ≢ []
      → pfctl_with_stdin P (load_args anchor) rules m.world ≡ (ok out, w)
      → load_rules P anchor rules m ≡ after_enable P anchor m.state (pfctl P enable_args w)
  unfolding load_rules after_load
  loaded [] anchor m out w ne h = absurd (ne refl)
  loaded (c ∷ rules) anchor m out w ne h = rw h refl

  -- Where pfctl loads the rules, turns pf on, and tells a token or none, the install succeeds, and
  -- the removal that follows runs pfctl to flush all of the anchor of that install, and then, if
  -- there is a token, to give exactly that token back, and nothing else; it forgets both.
  pub pf_install-undone :
      (chain : Str) (tcp_port dns_port : ℕ) (v4 v6 : List Str) (dns : Bool) (m : Mac P)
      (out told : Str) (token : Option Str) (w w' : P.World)
      → rules_text tcp_port dns_port v4 v6 dns ≢ []
      → pfctl_with_stdin P
          (load_args (anchor_of chain))
          (rules_text tcp_port dns_port v4 v6 dns)
          m.world
        ≡ (ok out, w)
      → pfctl P enable_args w ≡ (ok told, w')
      → Tells (lines told) token
      → (m₁ : Mac P) × (pf_install P chain tcp_port dns_port v4 v6 dns m ≡ (ok tt, m₁))
        × (m₁.world ≡ w')
        × (pf_remove P m₁
            ≡ (ok tt, record { world = given_back token (flushed chain w'); state = none }))
  unfolding pf_install pf_remove undo after_enable pfctl
  pf_install-undone chain tcp_port dns_port v4 v6 dns m out told token w w' some_rules loads enables
        tells =
      let rules = rules_text tcp_port dns_port v4 v6 dns in
      let m₁ : Mac P = record {
        world = w';
        state = some (record { anchor = anchor_of chain; enable_token = token });
      } in
      let args = flush_args (anchor_of chain) in
      let installs = loaded rules (anchor_of chain) m out w some_rules loads in
      (
        m₁,
        installs ∙ rw (enables, find_token-Tells (lines told) token tells) refl,
        refl,
        ap (λ x. (ok tt, record { world = x; state = none }))
            (disable-given_back token (pfctl P args w').1
              ∙ ap (given_back token) (checked-world args (P.run_pfctl args none w'))),
      )

  -- Where the rules are loaded but pf cannot be enabled, the install fails, and the removal that
  -- follows runs nothing: the rules stay in the anchor.
  pub pf_unfinished :
      (chain : Str) (tcp_port dns_port : ℕ) (v4 v6 : List Str) (dns : Bool) (m : Mac P) (out : Str)
      (e : PfError) (w w' : P.World)
      → rules_text tcp_port dns_port v4 v6 dns ≢ []
      → m.state ≡ none
      → pfctl_with_stdin P
          (load_args (anchor_of chain))
          (rules_text tcp_port dns_port v4 v6 dns)
          m.world
        ≡ (ok out, w)
      → pfctl P enable_args w ≡ (err e, w')
      → (m₁ : Mac P) × (pf_install P chain tcp_port dns_port v4 v6 dns m
          ≡ (err (pf_context (codes "enable pf") e), m₁))
        × (m₁.world ≡ w')
        × (pf_remove P m₁ ≡ (ok tt, m₁))
  unfolding pf_install pf_remove undo load_rules after_load after_enable
  pf_unfinished chain tcp_port dns_port v4 v6 dns m out e w w' some_rules fresh loads fails =
      let m₁ : Mac P = record { world = w'; state = none } in
      (m₁, load (rules_text tcp_port dns_port v4 v6 dns) some_rules loads, refl, refl)
    where
      load :
          (rules : Str)
          → rules ≢ []
          → pfctl_with_stdin P (load_args (anchor_of chain)) rules m.world ≡ (ok out, w)
          → load_rules P (anchor_of chain) rules m
            ≡ (err (pf_context (codes "enable pf") e), record { world = w'; state = none })
      load [] ne h = absurd (ne refl)
      load (c ∷ rules) ne h = rw (h, fails, fresh) refl
