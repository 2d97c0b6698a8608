-- ===== src/Firewall/Macos.antt =====
-- rushtle/src/firewall/macos.rs: the rules of pf.
pub mod Undo
pub mod Lookup
pub mod Samples
use kubectl_sshuttle.Base.{
  ℕ, zero, suc, ◌+◌, ◌≡◌, refl, Bool, true, false, Option, none, some, List, [], ◌∷◌, ◌++◌, codes,
  if◌then◌else◌, Result, ok, err,
}
use kubectl_sshuttle.Text.Utf8.{Str}
use kubectl_sshuttle.Text.Slices.{lines, strip_prefix, trim}
use kubectl_sshuttle.Text.Numbers.{to_string}

-- How a run of pfctl ends: it could not be started, written to or waited for; or it has an exit
-- status, 0 for success, and the text of its standard error.
pub data Ran : Type 0 where
  broken : Str → Ran
  ended : ℕ → Str → Ran

-- The parameters of the model: pfctl, with what it reads from its standard input, if anything.
pub record Pf : Type 1 where
  pub World : Type 0
  pub run_pfctl : List Str → Option Str → World → Ran × World

pub data PfError : Type 0 where
  no_subnets : PfError
  pf_broken : List Str → Str → PfError
  pf_status : List Str → ℕ → Str → PfError
  pf_context : Str → PfError → PfError

-- what `STATE` holds
pub record PfState : Type 0 where
  pub anchor : Str
  pub enable_token : Option Str

-- the anchor of a chain
abbrev pub anchor_of : Str → Str
anchor_of chain = codes "com.rushtle/" ++ chain

-- the texts of the rules
abbrev pub rdr_rule : Str → Str → Str → ℕ → Str
rdr_rule family host cidr port =
    codes "rdr pass on lo0 "
    ++ family
    ++ codes " proto tcp from any to "
    ++ cidr
    ++ codes " -> "
    ++ host
    ++ codes " port "
    ++ to_string port
    ++ codes "\n"

abbrev pub pass_rule : Str → Str → Str
pass_rule family cidr =
    codes "pass out route-to lo0 "
    ++ family
    ++ codes " proto tcp from any to "
    ++ cidr
    ++ codes " keep state\n"

abbrev pub dns_rdr_rule : ℕ → Str
dns_rdr_rule port =
    codes "rdr pass on lo0 inet proto udp from any to any port 53 -> 127.0.0.1 port "
    ++ to_string port
    ++ codes "\n"

pub push_subnets : Str → Str → ℕ → Str → List Str → Str
push_subnets family host port rules [] = rules
push_subnets family host port rules (cidr ∷ rest) =
    push_subnets family host port
      ((rules ++ rdr_rule family host cidr port) ++ pass_rule family cidr) rest

pub rules_text : ℕ → ℕ → List Str → List Str → Bool → Str
unfolding push_subnets
rules_text tcp_port dns_port subnets_v4 subnets_v6 dns =
    let v4 = push_subnets (codes "inet") (codes "127.0.0.1") tcp_port [] subnets_v4 in
    let with_dns = if dns then v4 ++ dns_rdr_rule dns_port else v4 in
    push_subnets (codes "inet6") (codes "::1") tcp_port with_dns subnets_v6

pub find_token : List Str → Option Str
find_token [] = none
find_token (l ∷ rest) = elim (strip_prefix (codes "Token : ") l) [
  | none ↦ find_token rest
  | some t ↦ some (trim t)
]

-- the exit status of a run
pub checked : {W : Type 0} → List Str → Ran × W → Result PfError Str × W
checked args (broken e, w) = (err (pf_broken args e), w)
checked args (ended zero stderr, w) = (ok stderr, w)
checked args (ended (suc n) stderr, w) = (err (pf_status args (suc n) stderr), w)

-- the arguments of pfctl
abbrev pub load_args : Str → List Str
load_args anchor = codes "-a" ∷ anchor ∷ codes "-f" ∷ codes "-" ∷ []

abbrev pub flush_args : Str → List Str
flush_args anchor = codes "-a" ∷ anchor ∷ codes "-F" ∷ codes "all" ∷ []

abbrev pub enable_args : List Str
enable_args = codes "-E" ∷ []

abbrev pub disable_args : Str → List Str
disable_args token = codes "-X" ∷ token ∷ []

module _ (P : Pf) where
  -- the world, and `STATE`
  pub record Mac : Type 0 where
    pub world : P.World
    pub state : Option PfState

  pub pfctl : List Str → P.World → Result PfError Str × P.World
  unfolding checked
  pfctl args w = checked args (P.run_pfctl args none w)

  pub pfctl_with_stdin : List Str → Str → P.World → Result PfError Str × P.World
  unfolding checked
  pfctl_with_stdin args payload w = checked args (P.run_pfctl args (some payload) w)

  -- pf is on; its token is noted
  pub after_enable :
      Str → Option PfState → Result PfError Str × P.World → Result PfError (Unit {0}) × Mac
  unfolding find_token
  after_enable anchor old (err e, w) =
      (err (pf_context (codes "enable pf") e), record { world = w; state = old })
  after_enable anchor old (ok stderr, w) = (
    ok tt,
    record {
      world = w;
      state = some (record { anchor = anchor; enable_token = find_token (lines stderr) });
    },
  )

  -- the rules are loaded
  pub after_load :
      Str → Option PfState → Result PfError Str × P.World → Result PfError (Unit {0}) × Mac
  unfolding pfctl after_enable
  after_load anchor old (err e, w) =
      (err (pf_context (codes "loading pf anchor rules") e), record { world = w; state = old })
  after_load anchor old (ok out, w) = after_enable anchor old (pfctl enable_args w)

  pub load_rules : Str → Str → Mac → Result PfError (Unit {0}) × Mac
  unfolding pfctl_with_stdin after_load
  load_rules anchor [] m = (err no_subnets, m)
  load_rules anchor (c ∷ rules) m =
      after_load anchor m.state (pfctl_with_stdin (load_args anchor) (c ∷ rules) m.world)

  unfoldable pub pf_install :
      Str → ℕ → ℕ → List Str → List Str → Bool → Mac → Result PfError (Unit {0}) × Mac
  unfolding load_rules rules_text
  pf_install chain tcp_port dns_port subnets_v4 subnets_v6 dns m =
      load_rules (anchor_of chain) (rules_text tcp_port dns_port subnets_v4 subnets_v6 dns) m

  pub disable : Option Str → P.World → P.World
  unfolding pfctl
  disable none w = w
  disable (some token) w = (pfctl (disable_args token) w).1

  pub undo : Option PfState → P.World → P.World
  unfolding pfctl disable
  undo none w = w
  undo (some st) w = disable st.enable_token (pfctl (flush_args st.anchor) w).1

  unfoldable pub pf_remove : Mac → Result PfError (Unit {0}) × Mac
  unfolding undo
  pf_remove m = (ok tt, record { world = undo m.state m.world; state = none })
