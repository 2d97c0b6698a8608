-- ===== src/Client/Forward/Events/Told.antt =====
-- rushtle/src/client.rs, the frames that a step hands to the writer task, as one connection sees
-- them.
use kubectl_sshuttle.Base.{
  ℕ, ◌≡◌, ◌≢◌, refl, sym, ap, ◌∙◌, Bool, true, not, ◌&&◌, some, List, [], ◌∷◌, ◌++◌, append-nil,
  if◌then◌else◌, get_elem?, get_elem?-set_ne, set, get_elem?-set_self, Bool-cases, inl, inr,
}
use kubectl_sshuttle.Base.{Only, Only-before, Keeps}
use kubectl_sshuttle.Client.Forward.Bounds.{channel_of}
use kubectl_sshuttle.Text.Utf8.{Bytes}
use kubectl_sshuttle.Ssnet.Frame.{Frame}
use kubectl_sshuttle.Ssnet.Carried.{
  carried, is_end, payloads, is_open, payloads-one, is_open-one, payloads-none, is_open-none,
  IsPlain, and_true, nothing,
}
use kubectl_sshuttle.Client.Forward.State.{Client, Conn}
use kubectl_sshuttle.Client.Forward.{send}

-- the connection `k` keeps its channel, and goes on reading or not
abbrev pub Keeping : ℕ → Conn → Bool → Client → Type 0
Keeping n k live d =
    (i : Conn) × (get_elem? d.conns n ≡ some i) × (i.channel ≡ k.channel) × (i.reader_live ≡ live)

-- From `c` to `d` the writer task was handed frames that carry `b` on the channel of the connection
-- `k`, up to the end of the channel, which is when the connection stops reading.
pub record Told (n : ℕ) (k : Conn) (b : Bytes) (c d : Client) : Type 0 where
  pub frames : List Frame
  pub sent : d.out ≡ c.out ++ frames
  pub keeps : Keeps channel_of c.conns d.conns
  pub shut : d.out_open ≡ true → c.out_open ≡ true
  pub says :
      Only channel_of n k.channel d.conns
      → d.out_open ≡ true
      → Keeping n k (k.reader_live && is_open k.channel frames) d
        × (b ≡ (if k.reader_live then payloads k.channel frames else []))

-- A step that hands over nothing.
pub Told-nothing :
    (n : ℕ) (k : Conn) (c d : Client)
    → d.out ≡ c.out
    → (d.out_open ≡ true → c.out_open ≡ true)
    → Keeps channel_of c.conns d.conns
    → Keeping n k k.reader_live d
    → Told n k [] c d
Told-nothing n k c d out shut keeps (i, there, ch, live) = record {
  frames = [];
  sent = out ∙ sym (append-nil c.out);
  keeps = keeps;
  shut = shut;
  says = λ only on. (
    (i, there, ch, live ∙ rw (is_open-none k.channel) (and_true k.reader_live)),
    rw (payloads-none k.channel) (nothing k.reader_live),
  );
}

-- A step that hands over one frame.
pub Told-one :
    (n : ℕ) (k : Conn) (b : Bytes) (f : Frame) (c d : Client)
    → d.out ≡ (send c f).out
    → d.out_open ≡ c.out_open
    → Keeps channel_of c.conns d.conns
    → (Only channel_of n k.channel c.conns
        → c.out_open ≡ true
        → Keeping n k (k.reader_live && not (is_end k.channel f)) d
          × (b ≡ (if k.reader_live then carried k.channel f else [])))
    → Told n k b c d
unfolding send
Told-one n k b f c d out same keeps fits = elim (Bool-cases c.out_open) [
  | inl on ↦ record {
    frames = f ∷ [];
    sent = rw on at out;
    keeps = keeps;
    shut = λ h. on;
    says = λ only h.
        let (kept, said) =
          fits (Only-before channel_of n k.channel c.conns d.conns keeps only) on in
        (rw (is_open-one k.channel f) kept, rw (payloads-one k.channel f) said);
  }
  | inr off ↦ record {
    frames = [];
    sent = (rw off at out) ∙ sym (append-nil c.out);
    keeps = keeps;
    shut = λ h. sym same ∙ h;
    says = λ only h. absurd (cc);
  }
]

-- A frame that does not concern the connection.
pub Told-plain :
    (n : ℕ) (k : Conn) (f : Frame) (c d : Client)
    → d.out ≡ (send c f).out
    → d.out_open ≡ c.out_open
    → Keeps channel_of c.conns d.conns
    → (Only channel_of n k.channel c.conns → IsPlain k.channel f)
    → (c.out_open ≡ true → Keeping n k k.reader_live d)
    → Told n k [] c d
Told-plain n k f c d out same keeps plain kept = Told-one n k [] f c d out same keeps λ only on.
    let (says_none, goes) = plain only in
    let (i, there, ch, live) = kept on in
    ((i, there, ch, live ∙ rw goes (and_true k.reader_live)), rw says_none (nothing k.reader_live))

pub Keeping-same :
    (n : ℕ) (k : Conn) (c d : Client)
    → get_elem? c.conns n ≡ some k
    → d.conns ≡ c.conns
    → Keeping n k k.reader_live d
Keeping-same n k c d h e = (k, ap (λ l. get_elem? l n) e ∙ h, refl, refl)

-- the connection itself is replaced
pub Keeping-set :
    (c d : Client) (n : ℕ) (k k' : Conn) (live : Bool)
    → get_elem? c.conns n ≡ some k
    → k'.channel ≡ k.channel
    → k'.reader_live ≡ live
    → d.conns ≡ set c.conns n k'
    → Keeping n k live d
Keeping-set c d n k k' live found ch l e =
    (k', ap (λ x. get_elem? x n) e ∙ get_elem?-set_self c.conns n k k' found, ch, l)

-- another connection is replaced
pub Keeping-other :
    (c d : Client) (m n : ℕ) (k j' : Conn)
    → m ≢ n
    → get_elem? c.conns n ≡ some k
    → d.conns ≡ set c.conns m j'
    → Keeping n k k.reader_live d
Keeping-other c d m n k j' ne h e =
    (k, ap (λ x. get_elem? x n) e ∙ get_elem?-set_ne c.conns m n j' ne ∙ h, refl, refl)
