-- ===== src/Firewall/Linux/Nat.antt =====
-- What rushtle/src/firewall/linux.rs relies on of iptables and ip6tables, as their manual pages
-- document it, and what a command then does to the NAT tables.
use mathlib.Core.Path.{fun_ext}
use kubectl_sshuttle.Base.{
  ℕ, suc, ◌≡◌, refl, sym, Bool, true, false, ◌&&◌, Option, none, some, List, [], ◌∷◌, ◌++◌, codes,
  if◌then◌else◌, same, same_refl, eq_of_same, All, Bool-cases, inl, inr,
}
use kubectl_sshuttle.Text.Utf8.{Str}
use kubectl_sshuttle.Firewall.System.{exited, System}
use kubectl_sshuttle.Firewall.Linux.{jump_rule, nat, spawn, with_wait}

abbrev pub Rule : Type 0
Rule = List Str

-- For each program and each chain of its NAT table: the chain's rules, if there is the chain.
abbrev pub View : Type 0
View = Str → Str → Option (List Rule)

abbrev pub put : View → Str → Str → Option (List Rule) → View
put v bin chain x b c = if same b bin && same c chain then x else v b c

abbrev pub same_rule : Rule → Rule → Bool
same_rule [] [] = true
same_rule (x ∷ xs) (y ∷ ys) = same x y && same_rule xs ys
same_rule _ _ = false

-- the list without the first rule like this one, if there is one
abbrev pub delete_first : Rule → List Rule → Option (List Rule)
delete_first r [] = none
delete_first r (x ∷ xs) =
    if same_rule r x
    then some xs
    else elim (delete_first r xs) [ none ↦ none | some ys ↦ some (x ∷ ys) ]

-- no rule jumps to the chain
abbrev pub Free : Str → List Rule → Type 0
Free chain rules = All (λ r. same_rule (jump_rule chain) r ≡ false) rules

-- A system whose NAT tables `view` shows, where the programs are run as root, by a process that is
-- root or through sudo. `accepted` are the rules that a program takes, apart from
-- jumps to chains of its own.
pub record IsNat (S : System) : Type 1 where
  pub view : S.State → View
  pub accepted : Str → Rule → Type 0
  -- -N creates an empty chain, and fails if there is one of this name
  pub create :
      (q : Bool) (bin chain : Str) (s : S.State)
      → view s bin chain ≡ none
      → (s' : S.State) × (spawn S q bin (with_wait (nat (codes "-N") chain [])) s ≡ (exited 0, s'))
        × (view s' ≡ put (view s) bin chain (some []))
  pub create_again :
      (q : Bool) (bin chain : Str) (s : S.State) (rules : List Rule)
      → view s bin chain ≡ some rules
      → (s' : S.State) × (code : ℕ) × (spawn S q bin (with_wait (nat (codes "-N") chain [])) s
          ≡ (exited (suc code), s'))
        × (view s' ≡ view s)
  -- -L lists a chain
  pub list :
      (q : Bool) (bin chain : Str) (s : S.State) (rules : List Rule)
      → view s bin chain ≡ some rules
      → (s' : S.State) × (spawn S q bin (with_wait (nat (codes "-L") chain (codes "-n" ∷ []))) s
          ≡ (exited 0, s'))
        × (view s' ≡ view s)
  -- -F deletes the rules of a chain
  pub flush :
      (q : Bool) (bin chain : Str) (s : S.State) (rules : List Rule)
      → view s bin chain ≡ some rules
      → (s' : S.State) × (spawn S q bin (with_wait (nat (codes "-F") chain [])) s ≡ (exited 0, s'))
        × (view s' ≡ put (view s) bin chain (some []))
  -- -A appends a rule to a chain
  pub add :
      (q : Bool) (bin chain : Str) (rule : Rule) (s : S.State) (rules : List Rule)
      → view s bin chain ≡ some rules
      → accepted bin rule
      → (s' : S.State) × (spawn S q bin (with_wait (nat (codes "-A") chain rule)) s
          ≡ (exited 0, s'))
        × (view s' ≡ put (view s) bin chain (some (rules ++ rule ∷ [])))
  -- and so a jump to a chain that there is
  pub add_jump :
      (q : Bool) (bin chain target : Str) (s : S.State) (rules there : List Rule)
      → view s bin chain ≡ some rules
      → view s bin target ≡ some there
      → (s' : S.State) × (spawn S q bin (with_wait (nat (codes "-A") chain (jump_rule target))) s
          ≡ (exited 0, s'))
        × (view s' ≡ put (view s) bin chain (some (rules ++ jump_rule target ∷ [])))
  -- -D deletes the first rule like the one given, and fails if there is none
  pub delete :
      (q : Bool) (bin chain : Str) (rule : Rule) (s : S.State) (rules left : List Rule)
      → view s bin chain ≡ some rules
      → delete_first rule rules ≡ some left
      → (s' : S.State) × (spawn S q bin (with_wait (nat (codes "-D") chain rule)) s
          ≡ (exited 0, s'))
        × (view s' ≡ put (view s) bin chain (some left))
  pub delete_none :
      (q : Bool) (bin chain : Str) (rule : Rule) (s : S.State) (rules : List Rule)
      → view s bin chain ≡ some rules
      → delete_first rule rules ≡ none
      → (s' : S.State) × (code : ℕ) × (spawn S q bin (with_wait (nat (codes "-D") chain rule)) s
          ≡ (exited (suc code), s'))
        × (view s' ≡ view s)
  -- -X deletes an empty chain to which no rule jumps
  pub erase :
      (q : Bool) (bin chain : Str) (s : S.State)
      → view s bin chain ≡ some []
      → ((c : Str) (rules : List Rule) → view s bin c ≡ some rules → Free chain rules)
      → (s' : S.State) × (spawn S q bin (with_wait (nat (codes "-X") chain [])) s ≡ (exited 0, s'))
        × (view s' ≡ put (view s) bin chain none)

-- laws of `put`
pub put_same :
    (v : View) (bin chain : Str) (x : Option (List Rule)) → put v bin chain x bin chain ≡ x
put_same v bin chain x = rw (same_refl bin, same_refl chain) refl

-- another chain of the same program
pub put_other :
    (v : View) (bin chain d : Str) (x : Option (List Rule))
    → same d chain ≡ false
    → put v bin chain x bin d ≡ v bin d
put_other v bin chain d x h = rw (same_refl bin, h) refl

pub put-put :
    (v : View) (bin chain : Str) (x y : Option (List Rule))
    → put (put v bin chain x) bin chain y ≡ put v bin chain y
put-put v bin chain x y = fun_ext λ b. fun_ext λ c. once (same b bin && same c chain) (v b c)
  where
    once :
        (t : Bool) (z : Option (List Rule))
        → (if t then y else (if t then x else z)) ≡ (if t then y else z)
    once true z = refl
    once false z = refl

-- what is there already
pub put_id :
    (v : View) (bin chain : Str) (x : Option (List Rule)) → v bin chain ≡ x → put v bin chain x ≡ v
put_id v bin chain x h = fun_ext λ b. fun_ext λ c. elim (Bool-cases (same b bin)) [
  | inl hb ↦ elim (Bool-cases (same c chain)) [
    | inl hc ↦ rw (hb, hc, eq_of_same b bin hb, eq_of_same c chain hc) (sym h)
    | inr hc ↦ rw (hb, hc) refl
  ]
  | inr hb ↦ rw hb refl
]
