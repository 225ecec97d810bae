-- ===== src/Queue/Keys/Distinct.antt =====
-- The four keys of one queue, pkg/queue/keys.go, compared with one another.
use laravel_queue_go.Prelude.{◌++◌, ◌≡◌, ◌∙◌, refl, false, [], ◌∷◌, arith}
use laravel_queue_go.Prelude.Bytes.{Bytes, codes, ◌=b◌, =b-false_sym}
use laravel_queue_go.Queue.Keys.{ready, delayed, reserved, notify}

eq-prefix : (p a b : Bytes) → ((p ++ a) =b (p ++ b)) ≡ (a =b b)
unfolding ◌=b◌
eq-prefix [] a b = refl
eq-prefix (x ∷ p) a b = ground (arith, eq-prefix p a b)

eq-longer : (q b : Bytes) → (q =b (q ++ b)) ≡ ([] =b b)
unfolding ◌=b◌
eq-longer [] b = refl
eq-longer (x ∷ q) b = ground (arith, eq-longer q b)

-- The keys that a queue's scripts work on.
pub record QueueKeys : Type 0 where
  pub ready : Bytes
  pub delayed : Bytes
  pub reserved : Bytes
  pub notify : Bytes

pub record AreDistinct (k : QueueKeys) : Type 0 where
  pub ready-notify : (k.ready =b k.notify) ≡ false
  pub notify-ready : (k.notify =b k.ready) ≡ false
  pub delayed-reserved : (k.delayed =b k.reserved) ≡ false
  pub reserved-delayed : (k.reserved =b k.delayed) ≡ false
  pub ready-delayed : (k.ready =b k.delayed) ≡ false
  pub ready-reserved : (k.ready =b k.reserved) ≡ false
  pub delayed-notify : (k.delayed =b k.notify) ≡ false
  pub reserved-notify : (k.reserved =b k.notify) ≡ false

unfoldable pub keys_of : Bytes → Bytes → QueueKeys
keys_of prefix queue = record {
  ready = ready prefix queue;
  delayed = delayed prefix queue;
  reserved = reserved prefix queue;
  notify = notify prefix queue;
}

module _ (p q : Bytes) where
  suffixed :
      (a b : Bytes)
      → ((p ++ (codes "queues:" ++ (q ++ a))) =b (p ++ (codes "queues:" ++ (q ++ b)))) ≡ (a =b b)
  suffixed a b = eq-prefix p _ _ ∙ eq-prefix (codes "queues:") (q ++ a) (q ++ b) ∙ eq-prefix q a b

  bare :
      (b : Bytes)
      → ((p ++ (codes "queues:" ++ q)) =b (p ++ (codes "queues:" ++ (q ++ b)))) ≡ ([] =b b)
  bare b = eq-prefix p _ _ ∙ eq-prefix (codes "queues:") q (q ++ b) ∙ eq-longer q b

  -- The four keys of a queue differ in pairs, whatever the prefix and the queue's name.
  pub keys_of-AreDistinct : AreDistinct (keys_of p q)
  unfolding keys_of ready delayed reserved notify ◌=b◌
  keys_of-AreDistinct = record {
    ready-notify = bare (codes ":notify");
    notify-ready =
        =b-false_sym (p ++ (codes "queues:" ++ q))
          (p ++ (codes "queues:" ++ (q ++ codes ":notify"))) (bare (codes ":notify"));
    delayed-reserved = suffixed (codes ":delayed") (codes ":reserved");
    reserved-delayed = suffixed (codes ":reserved") (codes ":delayed");
    ready-delayed = bare (codes ":delayed");
    ready-reserved = bare (codes ":reserved");
    delayed-notify = suffixed (codes ":delayed") (codes ":notify");
    reserved-notify = suffixed (codes ":reserved") (codes ":notify");
  }
