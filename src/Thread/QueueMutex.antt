-- ===== src/Thread/QueueMutex.antt =====
-- shared/Thread/include/Shared/Thread/QueueMutex.hpp and QueueMutex.inl: a lock that is given in the order
-- of a queue of tickets. The inner mutex is left out: a call runs without interleaving.
use fix4_2_protocol.Base.{
  Bool, true, false, not, ◌||◌, if◌then◌else◌, Option, none, some, List, [], ◌∷◌, ◌++◌, ◌≡◌, refl,
  arith,
}

module _ (T : Type 0) where
  pub record QueueMutex : Type 0 where
    pub queue : List T
    pub locked : Bool

module _ {T : Type 0} where
  -- `empty`
  unfoldable pub empty : QueueMutex T → Bool
  empty m = elim m.queue [ [] ↦ true | x ∷ xs ↦ false ]

  -- `front`: undefined on an empty queue.
  unfoldable pub front : QueueMutex T → Option T
  front m = elim m.queue [ [] ↦ none | x ∷ xs ↦ some x ]

  unfoldable pub tail : List T → Option (List T)
  tail [] = none
  tail (x ∷ xs) = some xs

  -- `unlock`: `pop_front` is undefined on an empty queue.
  unfoldable pub unlock : QueueMutex T → Option (QueueMutex T)
  unfolding tail
  unlock m = elim (tail m.queue) [
    | none ↦ none
    | some xs ↦ some (record { queue = xs; locked = false })
  ]

  -- `allow`
  unfoldable pub allow : QueueMutex T → T → QueueMutex T
  allow m id = record m { queue = m.queue ++ id ∷ [] }

module _ {T : Type 0} (equal : T → T → Bool) where
  unfoldable pub is_front : List T → T → Bool
  is_front [] id = false
  is_front (x ∷ xs) id = equal x id

  -- `lock` where the loop ends; `none` where it goes on.
  unfoldable pub lock : QueueMutex T → T → Option (QueueMutex T)
  unfolding is_front
  lock m id =
      if not (is_front m.queue id) || m.locked then none else some (record m { locked = true })

  -- The queue without the last ticket that is the id; `none` where there is none.
  unfoldable pub remove_last : List T → T → Option (List T)
  remove_last [] id = none
  remove_last (x ∷ xs) id = elim (remove_last xs id) [
    | some ys ↦ some (x ∷ ys)
    | none ↦ if equal x id then some xs else none
  ]

  -- `finish`
  unfoldable pub finish : QueueMutex T → T → QueueMutex T × Bool
  unfolding remove_last
  finish m id = elim (remove_last m.queue id) [
    | some ys ↦ (record m { queue = ys }, true)
    | none ↦ (m, false)
  ]

  lock_front_of :
      ((a b : T) → equal a b ≡ true → a ≡ b)
      → (xs : List T) (b : Bool) (q' : QueueMutex T) (id : T)
      → lock (record { queue = xs; locked = b }) id ≡ some q'
      → (ys : List T) × (xs ≡ id ∷ ys) × (q'.queue ≡ id ∷ ys)
  unfolding lock is_front
  lock_front_of sound [] b q' id h = cc
  lock_front_of sound (x ∷ ys) b q' id h =
      let e : equal x id ≡ true = ground arith in
      (ys, rw (sound x id e) refl, ground (arith, sound x id e))

  -- The lock is given to the first ticket only.
  pub lock_front :
      ((a b : T) → equal a b ≡ true → a ≡ b)
      → (q q' : QueueMutex T) (id : T) → lock q id ≡ some q'
      → (xs : List T) × (q.queue ≡ id ∷ xs) × (q'.queue ≡ id ∷ xs)
  lock_front sound q q' id h = lock_front_of sound q.queue q.locked q' id h
