-- ===== src/Firewall/Linux/Nameservers.antt =====
-- rushtle/src/firewall/linux.rs, `read_local_nameservers_v4`. `read` gives a file's text, if it can be
-- read.
use kubectl_sshuttle.Base.{
  ◌≡◌, refl, sym, ◌∙◌, ap, Bool, true, false, ◌||◌, Option, none, some, List, [], ◌∷◌, ◌++◌,
  append_assoc, append-nil, codes, if◌then◌else◌, same, Bool-cases, inl, inr,
}
use kubectl_sshuttle.Text.Utf8.{Str}
use kubectl_sshuttle.Text.Slices.{trim, lines, starts_with, strip_prefix}
use kubectl_sshuttle.Text.Laws.{comment-bare}
use kubectl_sshuttle.Text.Ipv4.{Ipv4, parse_ipv4, show_ipv4}

abbrev pub member : Str → List Str → Bool
member x [] = false
member x (y ∷ ys) = same x y || member x ys

abbrev pub is_empty : Str → Bool
is_empty [] = true
is_empty (c ∷ s) = false

pub of_address : Option Ipv4 → List Str
of_address none = []
of_address (some ip) = show_ipv4 ip ∷ []

pub of_rest : Option Str → List Str
unfolding of_address
of_rest none = []
of_rest (some rest) = of_address (parse_ipv4 (trim rest))

-- the IPv4 name server of a line
pub nameserver : Str → List Str
unfolding of_rest
nameserver raw =
    let line = trim raw in
    if is_empty line || starts_with (codes "#") line || starts_with (codes ";") line
    then []
    else of_rest (strip_prefix (codes "nameserver") line)

-- the variables of the loop
pub record Found : Type 0 where
  pub out : List Str
  pub seen : List Str

pub push : Found → Str → Found
push f s = if member s f.seen then f else record { out = f.out ++ s ∷ []; seen = s ∷ f.seen }

pub push_all : Found → List Str → Found
push_all f [] = f
push_all f (s ∷ rest) = push_all (push f s) rest

pub scan_lines : Found → List Str → Found
unfolding push_all nameserver
scan_lines f [] = f
scan_lines f (line ∷ rest) = scan_lines (push_all f (nameserver line)) rest

pub scan_text : Found → Option Str → Found
unfolding scan_lines
scan_text f none = f
scan_text f (some text) = scan_lines f (lines text)

unfoldable pub read_local_nameservers_v4 : (Str → Option Str) → List Str
unfolding scan_text
read_local_nameservers_v4 read =
    let first = scan_text (record { out = []; seen = [] }) (read (codes "/etc/resolv.conf")) in
    (scan_text first (read (codes "/run/systemd/resolve/resolv.conf"))).out

-- What a line says: behind the word, between blanks, an address; a line without the word, or without
-- an address behind it, says nothing.
abbrev pub told : Option Str → List Str
told none = []
told (some rest) = elim (parse_ipv4 (trim rest)) [ none ↦ [] | some ip ↦ show_ipv4 ip ∷ [] ]

abbrev pub entry : Str → List Str
entry line = told (strip_prefix (codes "nameserver") (trim line))

-- the entries of a text, in order
abbrev pub entries_of_lines : List Str → List Str
entries_of_lines [] = []
entries_of_lines (line ∷ rest) = entry line ++ entries_of_lines rest

abbrev pub entries : Option Str → List Str
entries none = []
entries (some text) = entries_of_lines (lines text)

-- a blank line and a comment have no `nameserver` in front
skipped-bare :
    (line : Str)
    → (is_empty line || starts_with (codes "#") line || starts_with (codes ";") line) ≡ true
    → strip_prefix (codes "nameserver") line ≡ none
unfolding strip_prefix
skipped-bare [] h = refl
skipped-bare (c ∷ line) h = comment-bare (c ∷ line) h

of_rest-told : (o : Option Str) → of_rest o ≡ told o
unfolding of_rest
of_rest-told none = refl
of_rest-told (some rest) = go (parse_ipv4 (trim rest))
  where
    go : (o : Option Ipv4) → of_address o ≡ (elim o [ none ↦ [] | some ip ↦ show_ipv4 ip ∷ [] ])
    go none = refl
    go (some ip) = refl

nameserver-entry : (line : Str) → nameserver line ≡ entry line
unfolding nameserver
nameserver-entry raw =
    let line = trim raw in
    let skip = is_empty line || starts_with (codes "#") line || starts_with (codes ";") line in
    elim (Bool-cases skip) [
      | inl skips ↦ rw skips (ap told (sym (skipped-bare line skips)))
      | inr reads ↦ rw reads (of_rest-told (strip_prefix (codes "nameserver") line))
    ]

-- the list without repetitions of what stands in front
abbrev pub fresh_from : List Str → List Str → List Str
fresh_from seen [] = []
fresh_from seen (s ∷ rest) =
    let again = fresh_from seen rest in
    let new = s ∷ fresh_from (s ∷ seen) rest in if member s seen then again else new

push_all-append :
    (f : Found) (xs ys : List Str) → push_all f (xs ++ ys) ≡ push_all (push_all f xs) ys
unfolding push_all
push_all-append f [] ys = refl
push_all-append f (x ∷ xs) ys = push_all-append (push f x) xs ys

scan_lines-push_all :
    (f : Found) (ls : List Str) → scan_lines f ls ≡ push_all f (entries_of_lines ls)
unfolding scan_lines push_all
scan_lines-push_all f [] = refl
scan_lines-push_all f (l ∷ ls) =
    ap (λ es. scan_lines (push_all f es) ls) (nameserver-entry l)
    ∙ scan_lines-push_all (push_all f (entry l)) ls
    ∙ sym (push_all-append f (entry l) (entries_of_lines ls))

scan_text-push_all : (f : Found) (t : Option Str) → scan_text f t ≡ push_all f (entries t)
unfolding scan_text push_all
scan_text-push_all f none = refl
scan_text-push_all f (some t) = scan_lines-push_all f (lines t)

push-old : (f : Found) (s : Str) → member s f.seen ≡ true → push f s ≡ f
unfolding push
push-old f s h = rw h refl

push-new :
    (f : Found) (s : Str)
    → member s f.seen ≡ false
    → push f s ≡ record { out = f.out ++ s ∷ []; seen = s ∷ f.seen }
unfolding push
push-new f s h = rw h refl

push_all-fresh_from :
    (f : Found) (es : List Str) → (push_all f es).out ≡ f.out ++ fresh_from f.seen es
unfolding push_all
push_all-fresh_from f [] = sym (append-nil f.out)
push_all-fresh_from f (s ∷ es) = elim (Bool-cases (member s f.seen)) [
  | inl old ↦
      ap (λ g. (push_all g es).out) (push-old f s old)
      ∙ push_all-fresh_from f es
      ∙ ap (λ t. f.out ++ t) (rw old refl)
  | inr new ↦
      ap (λ g. (push_all g es).out) (push-new f s new)
      ∙ push_all-fresh_from (record { out = f.out ++ s ∷ []; seen = s ∷ f.seen }) es
      ∙ append_assoc f.out (s ∷ []) (fresh_from (s ∷ f.seen) es)
      ∙ ap (λ t. f.out ++ t) (rw new refl)
]

-- The name servers are the IPv4 entries of the two files, the first file's in front, each address
-- once, at its first place; a file that cannot be read has none. An entry is a line that, between
-- blanks, starts with `nameserver` and has an IPv4 address behind it.
pub read_local_nameservers_v4-fresh :
    (read : Str → Option Str)
    → read_local_nameservers_v4 read
      ≡ fresh_from [] (
          entries (read (codes "/etc/resolv.conf"))
          ++ entries (read (codes "/run/systemd/resolve/resolv.conf")))
unfolding read_local_nameservers_v4
read_local_nameservers_v4-fresh read =
    let start : Found = record { out = []; seen = [] } in
    let a = read (codes "/etc/resolv.conf") in
    let b = read (codes "/run/systemd/resolve/resolv.conf") in
    ap (λ (f : Found). f.out)
      (scan_text-push_all (scan_text start a) b
        ∙ ap (λ f. push_all f (entries b)) (scan_text-push_all start a)
        ∙ sym (push_all-append start (entries a) (entries b)))
    ∙ push_all-fresh_from start (entries a ++ entries b)
