-- ===== src/Base/Tables.antt =====
-- Tables of tasks that have a queue each, and the maps from channels to their numbers.
use Prim.Native.Nat.{ℕ, ◌≤◌}
use mathlib.Core.Path.{◌≡◌, refl, sym, ap, ◌∙◌}
use mathlib.Core.Logic.{inl, inr}
use mathlib.Core.List.{List, [], ◌∷◌, ◌++◌}
use mathlib.Core.Option.{Option, none, some}
use native.Mathlib.Omega.{arith}
use native.Mathlib.Decide.{ℕ_discrete}
use kubectl_sshuttle.Base.Tests.{◌==◌, if◌then◌else◌, Bool-cases}
use kubectl_sshuttle.Base.Lists.{
  length, get_elem?, set, get_elem?-set_ne, get_elem?-set_self, get_elem?-set_cases, get_elem?-push,
  get_elem?-push_cases, get_elem?-append,
}

-- A map sends a channel to the number of the task that has the receiver of its queue.
abbrev pub ChannelMap : Type 0
ChannelMap = ℕ → Option ℕ

abbrev pub put : ChannelMap → ℕ → ℕ → ChannelMap
put m k v c = if c == k then some v else m c

abbrev pub erase : ChannelMap → ℕ → ChannelMap
erase m k c = if c == k then none else m c

-- Of the tasks of one kind: the queues are within their capacity, and each channel of the map is
-- that of the task to whose queue it leads.
pub record IsSound {T : Type 0} (capacity : ℕ) (size channel_of : T → ℕ) (map : ChannelMap)
    (tasks : List T) : Type 0 where
  pub bounded : (n : ℕ) (t : T) → get_elem? tasks n ≡ some t → size t ≤ capacity
  pub known :
      (ch n : ℕ) → map ch ≡ some n → (t : T) × (get_elem? tasks n ≡ some t) × (channel_of t ≡ ch)

module _ {T : Type 0} (capacity : ℕ) (size channel_of : T → ℕ) where
  pub erase-IsSound :
      (m : ChannelMap) (ts : List T) (ch : ℕ)
      → IsSound capacity size channel_of m ts
      → IsSound capacity size channel_of (erase m ch) ts
  erase-IsSound m ts ch s = record {
    bounded = s.bounded;
    known = λ c n h. elim (Bool-cases (c == ch)) [
      | inl e ↦ absurd (cc (rw e at h))
      | inr e ↦ s.known c n (rw e at h)
    ];
  }

  pub set-IsSound :
      (m : ChannelMap) (ts : List T) (n : ℕ) (t t' : T)
      → get_elem? ts n ≡ some t
      → channel_of t' ≡ channel_of t
      → size t' ≤ capacity
      → IsSound capacity size channel_of m ts
      → IsSound capacity size channel_of m (set ts n t')
  set-IsSound m ts n t t' found same_channel few s = record {
    bounded = λ i j h. elim (get_elem?-set_cases ts n i t t' j found h) [
      | inl old ↦ s.bounded i j old
      | inr e ↦ rw (← e) few
    ];
    known = λ c i h.
        let (j, there, ch) = s.known c i h in
        elim (ℕ_discrete n i) [
          | yes e ↦
              let e' : t ≡ j = ground (arith, found, there, e) in
              (
                t',
                rw (← e) (get_elem?-set_self ts n t t' found),
                same_channel ∙ ap channel_of e' ∙ ch,
              )
          | no ne ↦ (j, get_elem?-set_ne ts n i t' ne ∙ there, ch)
        ];
  }

  pub push-IsSound :
      (m : ChannelMap) (ts : List T) (t : T)
      → size t ≤ capacity
      → IsSound capacity size channel_of m ts
      → IsSound capacity size channel_of (put m (channel_of t) (length ts)) (ts ++ t ∷ [])
  push-IsSound m ts t few s = record {
    bounded = λ i j h. elim (get_elem?-push_cases ts t i j h) [
      | inl old ↦ s.bounded i j old
      | inr e ↦ rw (← e) few
    ];
    known = λ c n h. elim (Bool-cases (c == channel_of t)) [
      | inl here ↦
          let e : length ts ≡ n = ground (arith, (rw here at h)) in
          let e' : c ≡ channel_of t = ground (arith, here) in
          (t, rw (← e) (get_elem?-push ts t), sym e')
      | inr away ↦
          let (j, there, ch) = s.known c n (rw away at h) in
          (j, get_elem?-append ts (t ∷ []) n j there, ch)
    ];
  }

-- each task keeps its channel
module _ {T : Type 0} (channel_of : T → ℕ) where
  abbrev pub Keeps : List T → List T → Type 0
  Keeps ts us =
      (m : ℕ) (j : T)
      → get_elem? ts m ≡ some j
      → (i : T) × (get_elem? us m ≡ some i) × (channel_of i ≡ channel_of j)

  pub Keeps-same : (ts us : List T) → us ≡ ts → Keeps ts us
  Keeps-same ts us e m j h = (j, ap (λ l. get_elem? l m) e ∙ h, refl)

  pub Keeps-set :
      (ts us : List T) (n : ℕ) (t t' : T)
      → get_elem? ts n ≡ some t
      → channel_of t' ≡ channel_of t
      → us ≡ set ts n t'
      → Keeps ts us
  Keeps-set ts us n t t' found ch e m j h = elim (ℕ_discrete n m) [
    | yes own ↦
        let same : t ≡ j = ground (arith, found, h, own) in
        (
          t',
          ap (λ l. get_elem? l m) e ∙ rw (← own) (get_elem?-set_self ts n t t' found),
          ch ∙ ap channel_of same,
        )
    | no other ↦ (j, ap (λ l. get_elem? l m) e ∙ get_elem?-set_ne ts n m t' other ∙ h, refl)
  ]

  pub Keeps-push : (ts us : List T) (t : T) → us ≡ ts ++ t ∷ [] → Keeps ts us
  Keeps-push ts us t e m j h =
      (j, ap (λ l. get_elem? l m) e ∙ get_elem?-append ts (t ∷ []) m j h, refl)

  pub Keeps-trans : (ts us vs : List T) → Keeps ts us → Keeps us vs → Keeps ts vs
  Keeps-trans ts us vs v w m j h =
      let (i, there, e) = v m j h in let (i', there', e') = w m i there in (i', there', e' ∙ e)

  -- no other task has this channel
  abbrev pub Only : ℕ → ℕ → List T → Type 0
  Only n ch ts = (m : ℕ) (j : T) → get_elem? ts m ≡ some j → channel_of j ≡ ch → m ≡ n

  pub Only-before : (n ch : ℕ) (ts us : List T) → Keeps ts us → Only n ch us → Only n ch ts
  Only-before n ch ts us keeps only m j h e =
      let (i, there, same) = keeps m j h in only m i there (same ∙ e)
