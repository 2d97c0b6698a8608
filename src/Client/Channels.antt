-- ===== src/Client/Channels.antt =====
-- rushtle/src/client.rs, the channel numbers that `accept_loop` and the DNS task draw from `next_id`.
use kubectl_sshuttle.Base.{
  ℕ, zero, suc, ◌+◌, ◌%◌, ◌<◌, ◌≡◌, ◌≢◌, refl, Option, none, some, arith, ltb, if◌then◌else◌,
}
use kubectl_sshuttle.Ssnet.Connect.{u16_max}

-- `u16::checked_add`
checked_add : ℕ → ℕ → Option ℕ
checked_add a b = if ltb u16_max (a + b) then none else some (a + b)

unwrap_or : Option ℕ → ℕ → ℕ
unwrap_or none d = d
unwrap_or (some a) d = a

-- the number handed out, and the next value of `next_id`
unfoldable pub allocate : ℕ → ℕ × ℕ
unfolding checked_add unwrap_or
allocate id = (id, unwrap_or (checked_add id 1) 1)

abbrev pub first_id : ℕ
first_id = 1

-- `next_id` after a number of draws
unfoldable pub next_id : ℕ → ℕ
unfolding allocate
next_id zero = first_id
next_id (suc n) = (allocate (next_id n)).1

-- The n-th number drawn, counting from zero.
unfoldable pub drawn : ℕ → ℕ
unfolding next_id
drawn n = (allocate (next_id n)).0

-- The draws go round through 1, 2, …, 65535 in order, never 0.
pub drawn-eq : (n : ℕ) → drawn n ≡ 1 + n % u16_max
unfolding drawn
drawn-eq zero = refl
drawn-eq (suc n) = ground (arith, drawn-eq n)

-- No two of 65535 consecutive draws agree.
pub drawn-injective : (m n : ℕ) → m < n → n < m + u16_max → drawn m ≢ drawn n
drawn-injective m n h k e = absurd (omega (arith, drawn-eq m, drawn-eq n))
