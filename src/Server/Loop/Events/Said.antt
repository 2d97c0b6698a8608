-- ===== src/Server/Loop/Events/Said.antt =====
-- rushtle/src/server.rs, the frames that a step hands to the writer task, as one task sees them.
use kubectl_sshuttle.Base.{
  ℕ, ◌≡◌, ◌≢◌, refl, sym, ap, ◌∙◌, Bool, true, false, not, ◌&&◌, some, List, [], ◌∷◌, ◌++◌,
  append-nil, arith, if◌then◌else◌, get_elem?, get_elem?-set_ne, set, get_elem?-set_self,
  get_elem?-append, ℕ_discrete, Keeps, Keeps-same, Keeps-set, Keeps-push, Only, Only-before,
}
use kubectl_sshuttle.Text.Utf8.{Bytes}
use kubectl_sshuttle.Ssnet.Frame.{Frame}
use kubectl_sshuttle.Ssnet.Carried.{
  carried, is_end, payloads, is_open, payloads-one, is_open-one, payloads-none, is_open-none,
  IsPlain, and_true, nothing,
}
use kubectl_sshuttle.Server.Loop.State.{Server, TcpTask, Phase}
use kubectl_sshuttle.Server.Loop.{handed}
use kubectl_sshuttle.Server.Loop.Bounds.{tcp_channel}

-- the task may still send data
abbrev pub speaks_in : Phase → Bool → Bool
speaks_in Phase.connecting live = live
speaks_in Phase.streaming live = live
speaks_in Phase.refused live = false
speaks_in Phase.gone live = false

abbrev pub speaks : TcpTask → Bool
speaks t = speaks_in t.phase t.reader_live

-- the task `t` keeps its channel, and may go on sending or not
abbrev pub Keeping : ℕ → TcpTask → Bool → Server → Type 0
Keeping n t live x =
    (i : TcpTask) × (get_elem? x.tasks n ≡ some i) × (i.channel ≡ t.channel) × (speaks i ≡ live)

-- what the writer task has been handed, and whether it runs
abbrev pub wire : Server → List Frame × Bool
wire s = (s.out, s.out_open)

-- From `s` to `x` the writer task was handed frames that carry `b` on the channel of the task `t`, up
-- to the end of the channel, which is when the task stops sending, unless the writer task has ended.
pub record Said (n : ℕ) (t : TcpTask) (b : Bytes) (s x : Server) : Type 0 where
  pub frames : List Frame
  pub shut : x.out_open ≡ true → s.out_open ≡ true
  pub sent : x.out_open ≡ true → x.out ≡ s.out ++ frames
  pub keeps : Keeps tcp_channel s.tasks x.tasks
  pub says :
      Only tcp_channel n t.channel x.tasks
      → x.out_open ≡ true
      → Keeping n t (speaks t && is_open t.channel frames) x
        × (b ≡ (if speaks t then payloads t.channel frames else []))

-- A step that hands over nothing.
pub Said-nothing :
    (n : ℕ) (t : TcpTask) (s x : Server)
    → wire x ≡ wire s
    → Keeps tcp_channel s.tasks x.tasks
    → Keeping n t (speaks t) x
    → Said n t [] s x
Said-nothing n t s x out keeps (i, there, ch, live) = record {
  frames = [];
  shut = λ on. sym (ap (λ w. w.1) out) ∙ on;
  sent = λ on. ap (λ w. w.0) out ∙ sym (append-nil s.out);
  keeps = keeps;
  says = λ only on. (
    (i, there, ch, live ∙ rw (is_open-none t.channel) (and_true (speaks t))),
    rw (payloads-none t.channel) (nothing (speaks t)),
  );
}

-- A step that hands over one frame.
pub Said-one :
    (n : ℕ) (t : TcpTask) (b : Bytes) (f : Frame) (s x : Server)
    → wire x ≡ (handed s.out_open s.out f, s.out_open)
    → Keeps tcp_channel s.tasks x.tasks
    → (Only tcp_channel n t.channel s.tasks
        → s.out_open ≡ true
        → Keeping n t (speaks t && not (is_end t.channel f)) x
          × (b ≡ (if speaks t then carried t.channel f else [])))
    → Said n t b s x
Said-one n t b f s x out keeps fits = record {
  frames = f ∷ [];
  shut = λ on. sym (ap (λ w. w.1) out) ∙ on;
  sent = λ on. ap (λ w. w.0) out ∙ ap (λ b. handed b s.out f) (sym (ap (λ w. w.1) out) ∙ on);
  keeps = keeps;
  says = λ only on.
      let (kept, said) =
        fits (Only-before tcp_channel n t.channel s.tasks x.tasks keeps only)
          (sym (ap (λ w. w.1) out) ∙ on) in
      (rw (is_open-one t.channel f) kept, rw (payloads-one t.channel f) said);
}

-- A frame that does not concern the task.
pub Said-plain :
    (n : ℕ) (t : TcpTask) (f : Frame) (s x : Server)
    → wire x ≡ (handed s.out_open s.out f, s.out_open)
    → Keeps tcp_channel s.tasks x.tasks
    → (Only tcp_channel n t.channel s.tasks → IsPlain t.channel f)
    → Keeping n t (speaks t) x
    → Said n t [] s x
Said-plain n t f s x out keeps plain (i, there, ch, live) =
    Said-one n t [] f s x out keeps λ only on.
      let (says_none, goes) = plain only in
      ((i, there, ch, live ∙ rw goes (and_true (speaks t))), rw says_none (nothing (speaks t)))

-- the tasks are as they were
pub Keeping-same :
    (n : ℕ) (t : TcpTask) (s x : Server)
    → get_elem? s.tasks n ≡ some t
    → x.tasks ≡ s.tasks
    → Keeping n t (speaks t) x
Keeping-same n t s x h e = (t, ap (λ l. get_elem? l n) e ∙ h, refl, refl)

-- the task itself is replaced
pub Keeping-set :
    (s x : Server) (n : ℕ) (t t' : TcpTask) (live : Bool)
    → get_elem? s.tasks n ≡ some t
    → t'.channel ≡ t.channel
    → speaks t' ≡ live
    → x.tasks ≡ set s.tasks n t'
    → Keeping n t live x
Keeping-set s x n t t' live found ch l e =
    (t', ap (λ y. get_elem? y n) e ∙ get_elem?-set_self s.tasks n t t' found, ch, l)

-- another task is replaced
pub Keeping-other :
    (s x : Server) (m n : ℕ) (t u' : TcpTask)
    → m ≢ n
    → get_elem? s.tasks n ≡ some t
    → x.tasks ≡ set s.tasks m u'
    → Keeping n t (speaks t) x
Keeping-other s x m n t u' ne h e =
    (t, ap (λ y. get_elem? y n) e ∙ get_elem?-set_ne s.tasks m n u' ne ∙ h, refl, refl)

-- A task is replaced by one that sends as it did, and nothing is handed over.
pub quiet :
    (n m : ℕ) (t u u' : TcpTask) (s x : Server)
    → get_elem? s.tasks n ≡ some t
    → get_elem? s.tasks m ≡ some u
    → u'.channel ≡ u.channel
    → speaks u' ≡ speaks u
    → x.tasks ≡ set s.tasks m u'
    → wire x ≡ wire s
    → Said n t [] s x
quiet n m t u u' s x found hu ch live ts out =
    Said-nothing n t s x out (Keeps-set tcp_channel s.tasks x.tasks m u u' hu ch ts)
      (elim (ℕ_discrete m n) [
        | yes own ↦
            let mine : u ≡ t = ground (arith, hu, found, own) in
            Keeping-set s x n t u' (speaks t) found (ch ∙ ap (λ (y : TcpTask). y.channel) mine)
              (live ∙ ap speaks mine) (ts ∙ ap (λ i. set s.tasks i u') own)
        | no other ↦ Keeping-other s x m n t u' other found ts
      ])

-- Nothing about tasks.
pub apart :
    (n : ℕ) (t : TcpTask) (s x : Server)
    → get_elem? s.tasks n ≡ some t
    → x.tasks ≡ s.tasks
    → wire x ≡ wire s
    → Said n t [] s x
apart n t s x found ts out =
    Said-nothing n t s x out (Keeps-same tcp_channel s.tasks x.tasks ts)
      (Keeping-same n t s x found ts)

-- A frame of another kind is handed over.
pub sent_aside :
    (n : ℕ) (t : TcpTask) (f : Frame) (s x : Server)
    → get_elem? s.tasks n ≡ some t
    → x.tasks ≡ s.tasks
    → wire x ≡ (handed s.out_open s.out f, s.out_open)
    → IsPlain t.channel f
    → Said n t [] s x
sent_aside n t f s x found ts out plain =
    Said-plain n t f s x out (Keeps-same tcp_channel s.tasks x.tasks ts) (λ only. plain)
      (Keeping-same n t s x found ts)

-- A task is added.
pub pushed :
    (n : ℕ) (t u : TcpTask) (s x : Server)
    → get_elem? s.tasks n ≡ some t
    → x.tasks ≡ s.tasks ++ u ∷ []
    → wire x ≡ wire s
    → Said n t [] s x
pushed n t u s x found ts out =
    Said-nothing n t s x out (Keeps-push tcp_channel s.tasks x.tasks u ts)
      (t, ap (λ l. get_elem? l n) ts ∙ get_elem?-append s.tasks (u ∷ []) n t found, refl, refl)

pub Said-if :
    (n : ℕ) (t : TcpTask) (b : Bytes) (s x y : Server) (c : Bool)
    → Said n t b s x
    → Said n t b s y
    → Said n t b s (if c then x else y)
Said-if n t b s x y true hx hy = hx
Said-if n t b s x y false hx hy = hy

-- The writer task ends.
pub closed :
    (n : ℕ) (t : TcpTask) (s : Server)
    → get_elem? s.tasks n ≡ some t
    → Said n t [] s (record s { out_open = false })
closed n t s found = record {
  frames = [];
  shut = λ on. cc;
  keeps = Keeps-same tcp_channel s.tasks s.tasks refl;
  sent = λ on. cc;
  says = λ only on. cc;
}
