-- ===== src/Server/Loop/Events/Flow.antt =====
-- rushtle/src/server.rs, the bytes of a TCP channel: what is written, queued and held for a task.
use kubectl_sshuttle.Base.{
  ℕ, ◌≡◌, ◌≢◌, refl, sym, ap, ◌∙◌, ◌⊎◌, inl, inr, Bool, true, false, Option, none, some, List, [],
  ◌∷◌, ◌++◌, append_assoc, append-nil, arith, ◌==◌, ==_iff, if◌then◌else◌, ltb, length, get_elem?,
  get_elem?-set_ne, get_elem?-set_self, Bool-cases, ℕ_discrete,
}
use kubectl_sshuttle.Text.Utf8.{Bytes}
use kubectl_sshuttle.Ssnet.Frame.{Frame}
use kubectl_sshuttle.Server.Loop.State.{Server, Main, TcpTask, capacity, is_dropped}
use kubectl_sshuttle.Server.Loop.{set_task, offer, on_data}

abbrev pub concat : List Bytes → Bytes
concat [] = []
concat (b ∷ bs) = b ++ concat bs

-- the buffer that the main loop holds for a task
abbrev pub held : Main → ℕ → Bytes
held (Main.offering m buf) n = if m == n then buf else []
held _ n = []

-- what a task's socket has taken, what is queued for it, and what is held for it
abbrev pub flow : TcpTask → Bytes → Bytes
flow t b = t.written ++ (concat t.queue ++ b)

-- The task `t` with the number `n` becomes a task that has dropped its queue, or whose flow has
-- grown by `d`, if `b` was held for it.
pub record Moved (n : ℕ) (t : TcpTask) (b d : Bytes) (s : Server) : Type 0 where
  pub task : TcpTask
  pub found : get_elem? s.tasks n ≡ some task
  pub grown : (is_dropped task ≡ true) ⊎ (flow task (held s.main n) ≡ flow t b ++ d)
  pub stays : is_dropped t ≡ true → is_dropped task ≡ true

-- a step that leaves the task alone
pub still :
    (n : ℕ) (t : TcpTask) (s : Server) (b : Bytes)
    → get_elem? s.tasks n ≡ some t
    → held s.main n ≡ b
    → Moved n t b [] s
still n t s b h e = record {
  task = t;
  found = h;
  grown = inr (rw (e, append-nil (flow t b)) refl);
  stays = λ g. g;
}

pub Moved-if :
    (b : Bool) (n : ℕ) (t : TcpTask) (x y : Server) (d : Bytes)
    → Moved n t [] d x
    → Moved n t [] d y
    → Moved n t [] d (if b then x else y)
Moved-if true n t x y d hx hy = hx
Moved-if false n t x y d hx hy = hy

-- one buffer more at the end of the queue
flow-push :
    (w : Bytes) (q : List Bytes) (buf : Bytes)
    → w ++ (concat (q ++ buf ∷ []) ++ []) ≡ (w ++ (concat q ++ buf))
flow-push w q buf = ap (λ x. w ++ x) (append-nil (concat (q ++ buf ∷ [])) ∙ concat-push q)
  where
    concat-push : (q : List Bytes) → concat (q ++ buf ∷ []) ≡ concat q ++ buf
    concat-push [] = append-nil buf
    concat-push (x ∷ q) = ap (λ y. x ++ y) (concat-push q) ∙ sym (append_assoc x (concat q) buf)

pub self_eq : (n : ℕ) → (n == n) ≡ true
self_eq n = (==_iff n n).1 refl

pub other_eq : (m n : ℕ) → m ≢ n → (m == n) ≡ false
other_eq m n h = ground (arith, h)

-- an offer to the task itself
pub offer-own :
    (s : Server) (n : ℕ) (buf : Bytes) (t : TcpTask)
    → get_elem? s.tasks n ≡ some t
    → Moved n t buf [] (offer s n buf (some t))
unfolding offer set_task is_dropped
offer-own s n buf t h = elim (Bool-cases (is_dropped t)) [
  | inl gone ↦ rw gone (record { task = t; found = h; grown = inl gone; stays = λ g. g })
  | inr live ↦ elim (Bool-cases (ltb (length t.queue) capacity)) [
    | inl room ↦
        rw (live, room)
          (record {
            task = record t { queue = t.queue ++ buf ∷ [] };
            found = get_elem?-set_self s.tasks n t _ h;
            grown = inr (flow-push t.written t.queue buf ∙ sym (append-nil (flow t buf)));
            stays = λ g. g;
          })
    | inr full ↦
        rw (live, full)
          (still n t (record s { main = Main.offering n buf }) buf h (rw (self_eq n) refl))
  ]
]

-- an offer to another task
pub offer-other :
    (s : Server) (m n : ℕ) (buf : Bytes) (t u : TcpTask)
    → m ≢ n
    → get_elem? s.tasks n ≡ some t
    → Moved n t [] [] (offer s m buf (some u))
unfolding offer set_task
offer-other s m n buf t u ne h =
    let over : Server = record s { main = Main.reading } in
    let room : Server = record (set_task s m (record u { queue = u.queue ++ buf ∷ [] })) {
      main = Main.reading;
    } in
    let full : Server = record s { main = Main.offering m buf } in
    let free = ltb (length u.queue) capacity in
    Moved-if (is_dropped u) n t over (if free then room else full) [] (still n t over [] h refl) (
      Moved-if free n t room full []
        (still n t room [] (get_elem?-set_ne s.tasks m n _ ne ∙ h) refl)
        (still n t full [] h (rw (other_eq m n ne) refl)))

-- what was held was just brought
pub brought_held :
    (n : ℕ) (t : TcpTask) (b : Bytes) (s : Server) → Moved n t b [] s → Moved n t [] b s
brought_held n t b s v = record {
  task = v.task;
  found = v.found;
  grown = elim (v.grown) [
    | inl gone ↦ inl gone
    | inr e ↦ inr (e ∙ append-nil (flow t b) ∙ regroup)
  ];
  stays = v.stays;
}
  where
    regroup : flow t b ≡ flow t [] ++ b
    regroup = simp (append_assoc, append-nil)

-- what a frame brings for the task
abbrev pub payload_for : ℕ → Frame → Option ℕ → Bytes
payload_for n f none = []
payload_for n f (some m) = if m == n then f.payload else []

offer-any :
    (s : Server) (m n : ℕ) (buf : Bytes) (t : TcpTask) (u : Option TcpTask)
    → m ≢ n
    → held s.main n ≡ []
    → get_elem? s.tasks n ≡ some t
    → Moved n t [] [] (offer s m buf u)
unfolding offer
offer-any s m n buf t none ne e h = still n t s [] h e
offer-any s m n buf t (some u) ne e h = offer-other s m n buf t u ne h

pub on_data-Moved :
    (s : Server) (n : ℕ) (f : Frame) (t : TcpTask) (found : Option ℕ)
    → s.main ≡ Main.reading
    → get_elem? s.tasks n ≡ some t
    → Moved n t [] (payload_for n f found) (on_data s f.payload found)
unfolding on_data
on_data-Moved s n f t none r h = still n t s [] h (rw r refl)
on_data-Moved s n f t (some m) r h = elim (ℕ_discrete m n) [
  | yes own ↦ rw (own, self_eq n, h) (brought_held n t f.payload _ (offer-own s n f.payload t h))
  | no other ↦
      rw (other_eq m n other)
        (offer-any s m n f.payload t (get_elem? s.tasks m) other (rw r refl) h)
]
