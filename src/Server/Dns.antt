-- ===== src/Server/Dns.antt =====
-- rushtle/src/server.rs, `spawn_dns`: the resolvers that a query is tried on.
use kubectl_sshuttle.Base.{
  ℕ, ◌≡◌, ◌⊎◌, inl, inr, refl, sym, ap, ◌∙◌, length-take, Option, none, some, List, [], ◌∷◌, ◌++◌,
  All, Option-cases, Bool, true, false, ◌&&◌, ◌≤◌, if◌then◌else◌, codes, take, length, arith,
}
use kubectl_sshuttle.Text.Utf8.{Bytes, Str}
use kubectl_sshuttle.Ssnet.Cmd
use kubectl_sshuttle.Ssnet.Frame.{Frame, frame}

-- what the sockets do with one query: whether they are bound and send it, and the datagram that
-- comes back within the time limit, if one does
pub record Attempt : Type 0 where
  pub bound : Bool
  pub sent : Bool
  pub received : Option Bytes

-- the buffer takes 4096 bytes of a datagram
pub truncated : Option Bytes → Option Bytes
truncated none = none
truncated (some bytes) = some (take 4096 bytes)

-- `is_ipv6` and the sockets, with the address that they are bound to, are parameters.
module _ {A : Type 0} (is_ipv6 : A → Bool) (attempt : Str → A → Bytes → Attempt) where
  pub dns_query_one : A → Bytes → Option Bytes
  unfolding truncated
  dns_query_one ns query =
      let a = attempt (if is_ipv6 ns then codes "[::]:0" else codes "0.0.0.0:0") ns query in
      if a.bound && a.sent then truncated a.received else none

  -- the loop over the resolvers
  pub reply_of : List A → Bytes → Bytes
  unfolding dns_query_one
  reply_of [] query = []
  reply_of (ns ∷ rest) query = elim (dns_query_one ns query) [
    | none ↦ reply_of rest query
    | some reply ↦ reply
  ]

  unfoldable pub spawn_dns : ℕ → Bytes → List A → Frame
  unfolding reply_of
  spawn_dns channel query resolvers = frame channel Cmd.dns_response (reply_of resolvers query)

  -- the first resolver that answers, or that none does
  abbrev pub Tried : List A → Bytes → Bytes → Type 0
  Tried resolvers query reply =
      ((before : List A) × (ns : A) × (after : List A) × (resolvers ≡ before ++ ns ∷ after)
        × All (λ a. dns_query_one a query ≡ none) before
        × (dns_query_one ns query ≡ some reply))
      ⊎ (All (λ a. dns_query_one a query ≡ none) resolvers × (reply ≡ []))

  reply_of-none :
      (ns : A) (rest : List A) (query : Bytes)
      → dns_query_one ns query ≡ none
      → reply_of (ns ∷ rest) query ≡ reply_of rest query
  unfolding reply_of
  reply_of-none ns rest query h = go (dns_query_one ns query) h
    where
      go :
          (o : Option Bytes)
          → o ≡ none
          → (elim o [ none ↦ reply_of rest query | some reply ↦ reply ]) ≡ reply_of rest query
      go none e = refl
      go (some r) e = cc

  reply_of-some :
      (ns : A) (rest : List A) (query reply : Bytes)
      → dns_query_one ns query ≡ some reply
      → reply_of (ns ∷ rest) query ≡ reply
  unfolding reply_of
  reply_of-some ns rest query reply h = go (dns_query_one ns query) h
    where
      go :
          (o : Option Bytes)
          → o ≡ some reply
          → (elim o [ none ↦ reply_of rest query | some r ↦ r ]) ≡ reply
      go none e = cc
      go (some r) e = ground arith

  reply_of-Tried :
      (resolvers : List A) (query : Bytes) → Tried resolvers query (reply_of resolvers query)
  unfolding reply_of
  reply_of-Tried [] query = inr (tt, refl)
  reply_of-Tried (ns ∷ rest) query = elim (Option-cases (dns_query_one ns query)) [
    | inl fails ↦ elim (reply_of-Tried rest query) [
      | inl (before, a, after, split, none_before, answers) ↦ inl (
        ns ∷ before,
        a,
        after,
        ap (λ l. ns ∷ l) split,
        (fails, none_before),
        answers ∙ ap some (sym (reply_of-none ns rest query fails)),
      )
      | inr (all_fail, empty) ↦ inr ((fails, all_fail), reply_of-none ns rest query fails ∙ empty)
    ]
    | inr (reply, answers) ↦ inl (
      [],
      ns,
      rest,
      refl,
      tt,
      answers ∙ ap some (sym (reply_of-some ns rest query reply answers)),
    )
  ]

  dns_query_one-le :
      (ns : A) (query reply : Bytes) → dns_query_one ns query ≡ some reply → length reply ≤ 4096
  unfolding dns_query_one truncated
  dns_query_one-le ns query reply h =
      let a = attempt (if is_ipv6 ns then codes "[::]:0" else codes "0.0.0.0:0") ns query in
      go (a.bound && a.sent) a.received h
    where
      go :
          (b : Bool) (o : Option Bytes)
          → (if b then truncated o else none) ≡ some reply
          → length reply ≤ 4096
      go true (some bytes) e =
          let cut : take 4096 bytes ≡ reply = ground (arith, e) in
          rw (← cut) (omega (arith, length-take 4096 bytes))
      go true none e = cc
      go false o e = cc

  reply_of-le : (resolvers : List A) (query : Bytes) → length (reply_of resolvers query) ≤ 4096
  unfolding reply_of
  reply_of-le [] query = omega arith
  reply_of-le (ns ∷ rest) query = elim (Option-cases (dns_query_one ns query)) [
    | inl fails ↦ rw (reply_of-none ns rest query fails) (reply_of-le rest query)
    | inr (reply, answers) ↦
        rw (reply_of-some ns rest query reply answers) (dns_query_one-le ns query reply answers)
  ]

  -- The answer to a query is a frame on its channel with the reply of the first resolver that gives
  -- one, in the order of the list, or an empty one if none does; it has at most 4096 bytes.
  pub spawn_dns-first :
      (channel : ℕ) (query : Bytes) (resolvers : List A)
      → (reply : Bytes) × (spawn_dns channel query resolvers ≡ frame channel Cmd.dns_response reply)
        × Tried resolvers query reply
        × (length reply ≤ 4096)
  unfolding spawn_dns
  spawn_dns-first channel query resolvers =
      (reply_of resolvers query, refl, reply_of-Tried resolvers query, reply_of-le resolvers query)
