-- ===== src/Usb/Queue.antt =====
-- The message queues of src/legacy_usb.c, lines 53 and 54, are `k_msgq` of Zephyr's kernel, which is
-- not in the repository. The model takes such a queue as an argument, with what Zephyr documents of
-- it.
use crazyradio2_firmware.Base.{ℕ, ◌≤◌, ◌<◌, ◌≡◌, ◌++◌, Option, none, some, List, [], ◌∷◌, length}

-- `put` is `k_msgq_put` and `get` is `k_msgq_get`, neither of which waits.
pub record MsgQueue (A : Type 0) : Type 1 where
  pub Q : Type 0
  pub max_msgs : ℕ
  pub contents : Q → List A  -- oldest first
  pub put : A → Q → Option Q
  pub get : Q → Option (A × Q)
  pub purge : Q → Q
  pub put_none : (a : A) (q : Q) → put a q ≡ none → max_msgs ≤ length (contents q)
  pub put_some :
      (a : A) (q q' : Q)
      → put a q ≡ some q'
      → (length (contents q) < max_msgs) × (contents q' ≡ contents q ++ a ∷ [])
  pub get_none : (q : Q) → get q ≡ none → contents q ≡ []
  pub get_some : (q : Q) (r : A × Q) → get q ≡ some r → contents q ≡ r.0 ∷ contents r.1
  pub purge_empties : (q : Q) → contents (purge q) ≡ []
