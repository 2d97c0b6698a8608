-- ===== src/Tests/Tables.antt =====
-- NAT tables in memory, on which the rules of rushtle/src/firewall/linux.rs are run.
use kubectl_sshuttle.Base.{
  Bool, true, ◌≡◌, refl, ap, ◌∙◌, false, ◌&&◌, Option, none, some, List, [], ◌∷◌, ◌++◌, codes,
  if◌then◌else◌, same, All,
}
use kubectl_sshuttle.Text.Utf8.{Str}
use kubectl_sshuttle.Firewall.System.{Exit, exited, System}
use kubectl_sshuttle.Firewall.Linux.{sudo_args, with_wait, nat, jump_rule, output}
use kubectl_sshuttle.Firewall.Linux.Refused.{Refuses}
use kubectl_sshuttle.Firewall.Linux.Remove.{Only}
use kubectl_sshuttle.Firewall.Linux.Nat.{Rule, View, put, delete_first, IsNat}

-- a command on a chain, whose rules it takes, but for those that `refuse` tells
pub on_chain : (Rule → Bool) → Str → Str → Str → Rule → Option (List Rule) → View → Exit × View
on_chain refuse bin flag chain rest none v =
    if same flag (codes "-N") then (exited 0, put v bin chain (some [])) else (exited 1, v)
on_chain refuse bin flag chain rest (some rules) v =
    if same flag (codes "-L")
    then (exited 0, v)
    else if same flag (codes "-F")
    then (exited 0, put v bin chain (some []))
    else if same flag (codes "-A")
    then added (refuse rest)
    else if same flag (codes "-D")
    then deleted (delete_first rest rules)
    else if same flag (codes "-X")
    then erased rules
    else (exited 1, v)
  where
    added : Bool → Exit × View
    added true = (exited 4, v)
    added false = (exited 0, put v bin chain (some (rules ++ rest ∷ [])))

    deleted : Option (List Rule) → Exit × View
    deleted none = (exited 1, v)
    deleted (some left) = (exited 0, put v bin chain (some left))

    erased : List Rule → Exit × View
    erased [] = (exited 0, put v bin chain none)
    erased (r ∷ rs) = (exited 1, v)

nat_command : (Rule → Bool) → Str → List Str → View → Exit × View
unfolding on_chain
nat_command refuse bin (w ∷ seconds ∷ t ∷ table ∷ flag ∷ chain ∷ rest) v =
    on_chain refuse bin flag chain rest (v bin chain) v
nat_command refuse bin _ v = (exited 2, v)

pub run : (Rule → Bool) → Str → List Str → View → Exit × View
unfolding nat_command
run refuse program (a ∷ b ∷ bin ∷ rest) v =
    let command = run refuse bin rest v in
    if same a (codes "-p") && same program (codes "sudo")
    then command
    else nat_command refuse program (a ∷ b ∷ bin ∷ rest) v
run refuse program _ v = (exited 2, v)

-- a user who is not root, with these files
abbrev pub picky : (Rule → Bool) → (Str → Option Str) → System
picky refuse files = record {
  State = View;
  is_root = false;
  exec = λ quiet. run refuse;
  read_file = files;
}

abbrev pub memory : (Str → Option Str) → System
memory = picky (λ r. false)

pub run_on :
    (refuse : Rule → Bool) (bin flag chain : Str) (rest : Rule) (v : View) (o : Option (List Rule))
    → v bin chain ≡ o
    → run refuse (codes "sudo") (sudo_args bin (with_wait (nat flag chain rest))) v
      ≡ on_chain refuse bin flag chain rest o v
unfolding run
run_on refuse bin flag chain rest v o h = ap (λ x. on_chain refuse bin flag chain rest x v) h

unfoldable pub picky-IsNat :
    (refuse : Rule → Bool) (files : Str → Option Str)
    → ((target : Str) → refuse (jump_rule target) ≡ false)
    → IsNat (picky refuse files)
unfolding on_chain
picky-IsNat refuse files jumps = record {
  view = λ v. v;
  accepted = λ bin rule. refuse rule ≡ false;
  create = λ q bin chain v h.
      (put v bin chain (some []), run_on refuse bin (codes "-N") chain [] v none h, refl);
  create_again = λ q bin chain v rules h.
      (v, 0, run_on refuse bin (codes "-N") chain [] v (some rules) h, refl);
  list = λ q bin chain v rules h.
      (v, run_on refuse bin (codes "-L") chain (codes "-n" ∷ []) v (some rules) h, refl);
  flush = λ q bin chain v rules h.
      (put v bin chain (some []), run_on refuse bin (codes "-F") chain [] v (some rules) h, refl);
  add = λ q bin chain rule v rules h a. (
    put v bin chain (some (rules ++ rule ∷ [])),
    run_on refuse bin (codes "-A") chain rule v (some rules) h ∙ rw a refl,
    refl,
  );
  add_jump = λ q bin chain target v rules there h t. (
    put v bin chain (some (rules ++ jump_rule target ∷ [])),
    run_on refuse bin (codes "-A") chain (jump_rule target) v (some rules) h
        ∙ rw (jumps target) refl,
    refl,
  );
  delete = λ q bin chain rule v rules left h d. (
    put v bin chain (some left),
    run_on refuse bin (codes "-D") chain rule v (some rules) h ∙ rw d refl,
    refl,
  );
  delete_none = λ q bin chain rule v rules h d.
      (v, 0, run_on refuse bin (codes "-D") chain rule v (some rules) h ∙ rw d refl, refl);
  erase = λ q bin chain v h free.
      (put v bin chain none, run_on refuse bin (codes "-X") chain [] v (some []) h, refl);
}

pub picky-Refuses :
    (refuse : Rule → Bool) (files : Str → Option Str)
    (jumps : (target : Str) → refuse (jump_rule target) ≡ false) (bin : Str) (rule : Rule)
    → refuse rule ≡ true
    → Refuses (picky refuse files) (picky-IsNat refuse files jumps) bin rule
unfolding on_chain picky-IsNat
picky-Refuses refuse files jumps bin rule refused chain v rules h =
    (v, 3, run_on refuse bin (codes "-A") chain rule v (some rules) h ∙ rw refused refl, refl)

abbrev pub memory-IsNat : (files : Str → Option Str) → IsNat (memory files)
memory-IsNat files = picky-IsNat (λ r. false) files (λ target. refl)

-- a resolver file, and tables with a rule in OUTPUT and a stale chain
abbrev pub files : Str → Option Str
files path =
    if same path (codes "/etc/resolv.conf")
    then some (codes "# home\nnameserver 10.0.0.1\nnameserver fe80::1\n nameserver\t10.0.0.1\n")
    else none

abbrev pub chain : Str
chain = codes "RUSHTLE_7"

abbrev pub kept : Rule
kept = codes "-j" ∷ codes "ACCEPT" ∷ []

abbrev pub tables : View
tables b c = if same c output then some (kept ∷ []) else none

pub All-accepted : (rules : List Rule) → All (λ (r : Rule). false ≡ false) rules
All-accepted [] = tt
All-accepted (r ∷ rs) = (refl, All-accepted rs)

pub tables-Only : (bin name : Str) → Only tables bin name
tables-Only bin name c rules ho hc h = absurd (cc (rw ho at h))
