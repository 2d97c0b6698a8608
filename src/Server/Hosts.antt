-- ===== src/Server/Hosts.antt =====
-- rushtle/src/server.rs, `read_etc_hosts`, and rushtle/src/ssnet.rs, `encode_host_list`.
use kubectl_sshuttle.Base.{
  ◌≡◌, refl, sym, ◌∙◌, append_assoc, append-nil, Bool, true, false, ◌||◌, Option, none, some, List,
  [], ◌∷◌, ◌++◌, if◌then◌else◌, codes,
}
use kubectl_sshuttle.Text.Utf8.{Bytes, Str, to_utf8}
use kubectl_sshuttle.Text.Slices.{trim, lines, split_whitespace, starts_with}

-- the names of a line, up to one that begins with a number sign
pub names : Str → List Str → List (Str × Str)
names ip [] = []
names ip (name ∷ rest) = if starts_with (codes "#") name then [] else (name, ip) ∷ names ip rest

pub entries_of : List Str → List (Str × Str)
unfolding names
entries_of [] = []
entries_of (ip ∷ rest) = names ip rest

is_nil : Str → Bool
is_nil [] = true
is_nil (c ∷ s) = false

pub line_entries : Str → List (Str × Str)
unfolding entries_of is_nil
line_entries raw =
    let line = trim raw in
    if is_nil line || starts_with (codes "#") line then [] else entries_of (split_whitespace line)

pub all_entries : List Str → List (Str × Str)
unfolding line_entries
all_entries [] = []
all_entries (line ∷ rest) = line_entries line ++ all_entries rest

-- the file's text, or an error that the caller takes for no entries
unfoldable pub read_etc_hosts : Option Str → List (Str × Str)
unfolding all_entries
read_etc_hosts none = []
read_etc_hosts (some text) = all_entries (lines text)

-- `first` tells whether an entry has been written
pub push_entries : Bool → List (Str × Str) → Bytes → Bytes
push_entries first [] out = out
push_entries first ((name, ip) ∷ rest) out =
    let out₁ = if first then out else out ++ (10 ∷ []) in
    push_entries false rest (((out₁ ++ to_utf8 name) ++ (b',' ∷ [])) ++ to_utf8 ip)

unfoldable pub encode_host_list : List (Str × Str) → Bytes
unfolding push_entries
encode_host_list entries = push_entries true entries []

hosts_file :
    encode_host_list
      (read_etc_hosts (some (codes "# local\n127.0.0.1 localhost lo # x y\n\n10.1.2.3\tpod\n")))
    ≡ codes "localhost,127.0.0.1\nlo,127.0.0.1\npod,10.1.2.3"
unfolding encode_host_list read_etc_hosts trim lines split_whitespace starts_with to_utf8
hosts_file = refl

-- an entry as `hostname,ip`
abbrev pub entry_text : Str × Str → Bytes
entry_text (name, ip) = to_utf8 name ++ (b',' ∷ to_utf8 ip)

abbrev pub behind : List (Str × Str) → Bytes
behind [] = []
behind (e ∷ es) = 10 ∷ (entry_text e ++ behind es)

-- the entries with a line feed between each two
abbrev pub separated : List (Str × Str) → Bytes
separated [] = []
separated (e ∷ es) = entry_text e ++ behind es

push_entries-behind :
    (es : List (Str × Str)) (out : Bytes) → push_entries false es out ≡ out ++ behind es
unfolding push_entries
push_entries-behind [] out = sym (append-nil out)
push_entries-behind ((name, ip) ∷ es) out =
    push_entries-behind es ((((out ++ 10 ∷ []) ++ to_utf8 name) ++ b',' ∷ []) ++ to_utf8 ip)
    ∙ simp append_assoc

-- The payload of the host list is the entries in order, each as `hostname,ip`, with a line feed
-- between each two and none at the end.
pub encode_host_list-separated : (es : List (Str × Str)) → encode_host_list es ≡ separated es
unfolding encode_host_list push_entries
encode_host_list-separated [] = refl
encode_host_list-separated ((name, ip) ∷ es) =
    push_entries-behind es ((([] ++ to_utf8 name) ++ b',' ∷ []) ++ to_utf8 ip) ∙ simp append_assoc
