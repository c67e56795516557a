-- ===== src/MessageQueue/Deadline.antt =====
-- The deadline that `message_queue_pop` hands to `pthread_cond_timedwait`.
use roole.Base.{ℕ, ◌+◌, ◌*◌, ◌<◌, ◌≡◌, arith}
use roole.MessageQueue.{deadline}

-- From a clock reading with fewer than 10⁹ nanoseconds, the deadline lies exactly `timeout_ms`
-- milliseconds later, and is again a time with fewer than 10⁹ nanoseconds, as
-- `pthread_cond_timedwait` wants it.
pub deadline_lem :
    (tv_sec tv_nsec timeout_ms : ℕ)
    → tv_nsec < 1000000000
    → ((deadline tv_sec tv_nsec timeout_ms).1 < 1000000000)
      × ((deadline tv_sec tv_nsec timeout_ms).0 * 1000000000
            + (deadline tv_sec tv_nsec timeout_ms).1
          ≡ tv_sec * 1000000000 + tv_nsec + timeout_ms * 1000000)
unfolding deadline
deadline_lem tv_sec tv_nsec timeout_ms h = ground arith
