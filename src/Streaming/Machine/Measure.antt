-- ===== src/Streaming/Machine/Measure.antt =====
-- A bound on the steps that are left, which every step of a thread lowers.
use flow_proxy.Base.{
  ℕ, ◌+◌, ◌*◌, ◌-◌, ◌≤◌, ◌<◌, ◌≡◌, ◌≢◌, refl, ap, sym, subst, ◌∙◌, ◌⊎◌, inl, inr, Bool, true, false,
  ◌&&◌, Option, none, some, List, [], ◌∷◌, Text, Bytes, length, length-append, ltb, Bool-cases,
  if_intro, if_true, if_false, Exc, ok, err, arith,
}
use flow_proxy.Streaming.Machine.{
  Item, response_headers, chunk, sentinel, World, Worker, opening, told, reading, ending,
  last_write, finished, Phase, idle, draining, joining, body_of, put, write, take_chunk, work,
  worker_step, headers_of, finish, abandon, take_item, main_in, main_step,
}
use flow_proxy.Streaming.Machine.Awake.{has_sentinel, said, quit, IsAwake}

unfoldable pub weight : Worker → ℕ
weight (opening (ok r)) = 11 + 5 * length (body_of r)
weight (opening (err e)) = 6
weight (told rest e) = 9 + 5 * length rest
weight (reading rest e) = 6 + 5 * length rest
weight ending = 5
weight last_write = 3
weight finished = 0

unfoldable pub stage : Phase → ℕ
stage idle = 0
stage draining = 1
stage joining = 1

-- A bound on the steps that are left to the two threads.
unfoldable pub left : World → ℕ
unfolding weight stage
left w = weight w.worker + length w.chunk_queue + 2 * w.notifications + stage w.phase

-- With this worker, and all else the same.
left_with : World → Worker → ℕ
unfolding weight stage
left_with w k = weight k + length w.chunk_queue + 2 * w.notifications + stage w.phase

module _ (reused : Bool) (elapsed : ℕ) (w : World) where
  left-write :
      (done raised : Worker) (n : ℕ)
      → weight done + 2 < n
      → weight raised < n
      → left (write reused w done raised)
        < n + length w.chunk_queue + 2 * w.notifications + stage w.phase
  unfolding write left
  left-write done raised n h k =
      if_intro
        (λ (x : World). left x < n + length w.chunk_queue + 2 * w.notifications + stage w.phase)
        w.pipe_open _ _ (omega arith)
        (if_intro
          (λ (x : World). left x < n + length w.chunk_queue + 2 * w.notifications + stage w.phase)
          reused _ _ (omega arith) (omega arith))

  left-take_chunk :
      (c : Bytes) (rest : List Bytes) (x : Option Exc)
      → left (take_chunk elapsed w c rest x) < left_with w (reading (c ∷ rest) x)
  unfolding take_chunk put left left_with weight
  left-take_chunk [] rest x = omega arith
  left-take_chunk (b ∷ bs) rest x = omega (arith, length-append w.chunk_queue (chunk (b ∷ bs) ∷ []))

  left-work : (k : Worker) → k ≢ finished → left (work reused elapsed w k) < left_with w k
  unfolding work put left left_with weight
  left-work (opening (ok r)) n =
      omega (arith, length-append w.chunk_queue (response_headers (headers_of r) ∷ []))
  left-work (opening (err e)) n = omega arith
  left-work (told rest e) n =
      left-write (reading rest e) ending (9 + 5 * length rest) (omega arith) (omega arith)
  left-work (reading [] none) n = omega arith
  left-work (reading [] (some e)) n = omega arith
  left-work (reading (c ∷ rest) e) n =
      if_intro (λ (x : World). left x < left_with w (reading (c ∷ rest) e)) w.cancel _ _
        (omega arith) (left-take_chunk c rest e)
  left-work ending n = omega (arith, length-append w.chunk_queue (sentinel ∷ []))
  left-work last_write n = left-write finished finished 3 (omega arith) (omega arith)
  left-work finished n = absurd (n refl)

module _ (lower : Text → Text) (w : World) where
  left-take_item :
      (q : List Item) → w.chunk_queue ≡ q → w.phase ≡ draining → left (take_item lower w q) < left w
  unfolding take_item finish left stage
  left-take_item [] e d = rw d (omega arith)
  left-take_item (sentinel ∷ rest) e d = rw (e, d) (omega arith)
  left-take_item (chunk c ∷ rest) e d = rw e (omega arith)
  left-take_item (response_headers r ∷ rest) e d = rw e (omega arith)

  main_at : (p : Phase) → w.phase ≡ p → p ≢ idle → left (main_in lower w p) < left w
  unfolding main_in abandon
  main_at idle e n = absurd (n refl)
  main_at draining e n = left-take_item w.chunk_queue refl e
  main_at joining e n = unfold left stage in rw e (omega arith)

  drained_left :
      w.phase ≡ idle
      → 0 < w.notifications
      → left (record w { notifications = w.notifications - 256; phase = draining }) < left w
  unfolding left stage
  drained_left e n = rw e (omega arith)

  main_woken :
      w.phase ≡ idle
      → w.attached ≡ true
      → 0 < w.notifications
      → left (main_in lower w idle) < left w
  unfolding main_in
  main_woken e a n =
      if_true (λ (x : World). left x < left w) (w.attached && ltb 0 w.notifications) _ _
        (ground (arith, a)) (drained_left e n)

  main_le : (p : Phase) → w.phase ≡ p → left (main_in lower w p) ≤ left w
  unfolding main_in
  main_le idle e = elim (Bool-cases (w.attached && ltb 0 w.notifications)) [
    | inl b ↦
        let n : 0 < w.notifications = ground (arith, b) in
        if_true (λ (x : World). left x ≤ left w) (w.attached && ltb 0 w.notifications) _ _ b
          (omega (arith, drained_left e n))
    | inr b ↦
        subst (λ (x : World). left x ≤ left w)
          (sym (if_false (w.attached && ltb 0 w.notifications) _ _ b)) (omega arith)
  ]
  main_le draining e = omega (arith, left-take_item w.chunk_queue refl e)
  main_le joining e = omega (arith, main_at joining e (λ q. cc))

  item_attached : (q : List Item) → w.attached ≡ false → (take_item lower w q).attached ≡ false
  unfolding take_item finish
  item_attached [] a = a
  item_attached (sentinel ∷ rest) a = refl
  item_attached (chunk c ∷ rest) a = a
  item_attached (response_headers r ∷ rest) a = a

  pub main_attached : (p : Phase) → w.attached ≡ false → (main_in lower w p).attached ≡ false
  unfolding main_in abandon
  main_attached idle a =
      if_intro (λ (x : World). x.attached ≡ false) (w.attached && ltb 0 w.notifications) _ _ a a
  main_attached draining a = item_attached w.chunk_queue a
  main_attached joining a = refl

module _ (reused : Bool) (elapsed : ℕ) (w : World) where
  pub worker_cases : (w.worker ≡ finished) ⊎ (left (worker_step reused elapsed w) < left w)
  unfolding worker_step left left_with
  worker_cases = kinds w.worker refl
    where
      kinds :
          (k : Worker)
          → w.worker ≡ k
          → (w.worker ≡ finished) ⊎ (left (work reused elapsed w w.worker) < left w)
      kinds finished e = inl e
      kinds (opening u) e = inr (left-work reused elapsed w w.worker (λ q. cc (sym e ∙ q)))
      kinds (told rest x) e = inr (left-work reused elapsed w w.worker (λ q. cc (sym e ∙ q)))
      kinds (reading rest x) e = inr (left-work reused elapsed w w.worker (λ q. cc (sym e ∙ q)))
      kinds ending e = inr (left-work reused elapsed w w.worker (λ q. cc (sym e ∙ q)))
      kinds last_write e = inr (left-work reused elapsed w w.worker (λ q. cc (sym e ∙ q)))

-- With the worker done and the request still the current one, the main thread has a step.
pub main_enabled :
    (lower : Text → Text) (w : World)
    → IsAwake w
    → w.attached ≡ true
    → w.worker ≡ finished
    → left (main_step lower w) < left w
unfolding main_step quit said has_sentinel
main_enabled lower w h a f = phases w.phase refl
  where
    queued : w.chunk_queue ≢ []
    queued e =
        let kept : has_sentinel w.chunk_queue ≡ true = h.kept a (rw f refl) in cc (rw e at kept)

    phases : (p : Phase) → w.phase ≡ p → left (main_in lower w p) < left w
    phases draining e = main_at lower w draining e (λ q. cc)
    phases joining e = main_at lower w joining e (λ q. cc)
    phases idle e = elim (h.woken a e queued) [
      | inl s ↦ cc (rw f at s)
      | inr n ↦ main_woken lower w e a n
    ]

pub worker_rests :
    (reused : Bool) (elapsed : ℕ) (w : World)
    → w.worker ≡ finished
    → worker_step reused elapsed w ≡ w
unfolding worker_step work
worker_rests reused elapsed w f = ap (work reused elapsed w) f

pub main_step_le : (lower : Text → Text) (w : World) → left (main_step lower w) ≤ left w
unfolding main_step
main_step_le lower w = main_le lower w w.phase refl
