-- ===== src/Chat/Mask.antt =====
-- The event masks of `poll` in chat/server.c, bit by bit.
use network_code.Base.{ℕ, ◌≡◌, Bool, true, false, not, ◌||◌, ◌==◌, arith, if◌then◌else◌}

-- A mask of 16 bits, as a function of the number of the bit.
abbrev pub Mask : Type 0
Mask = ℕ → Bool

-- The bits of POLLIN (1), POLLOUT (4), POLLERR (8) and POLLRDHUP (0x2000).
abbrev pub pollin : ℕ
pollin = 0

abbrev pub pollout : ℕ
pollout = 2

abbrev pub pollerr : ℕ
pollerr = 3

abbrev pub pollrdhup : ℕ
pollrdhup = 13

abbrev pub bit : ℕ → Mask
bit k i = i == k

abbrev pub no_events : Mask
no_events i = false

-- `a | b` and `~a`
abbrev pub mask_or : Mask → Mask → Mask
mask_or a b i = a i || b i

abbrev pub mask_not : Mask → Mask
mask_not a i = not (a i)

-- `events |= ~POLLIN; events |= POLLOUT`
unfoldable pub want_write : Mask → Mask
want_write e = mask_or (mask_or e (mask_not (bit pollin))) (bit pollout)

-- `events |= ~POLLOUT; events |= POLLIN`
unfoldable pub want_read : Mask → Mask
want_read e = mask_or (mask_or e (mask_not (bit pollout))) (bit pollin)

-- Neither change takes a bit away: the first sets every bit but POLLIN, which stays as it was, the
-- second every bit but POLLOUT, which stays as it was. So a slot that has been asked to write and
-- then to read is watched for every event, and stays so.
masks_only_grow :
    (e : Mask) (k : ℕ)
    → (want_write e k ≡ (if k == pollin then e k else true))
      × (want_read e k ≡ (if k == pollout then e k else true))
      × (want_read (want_write e) k ≡ true)
unfolding want_write want_read
masks_only_grow e k = (ground arith, ground arith, ground arith)
