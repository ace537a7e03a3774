-- ===== src/Utility/LockFreeQueue/Steps.antt =====
-- The methods of the ring buffer as the threads run them, one access to shared memory at a time, in
-- any order: one thread pushes, as the one that accepts connections does, and many pop. Memory is
-- sequentially consistent here. The numbers of the elements, and the list of those that have been
-- published, are kept for the proofs: no test reads them.
pub mod Numbers
pub mod Pace
pub mod PushMoves
pub mod PopMoves
pub mod Delivery
pub mod Counter
pub mod Stalled
use simple_serv.Common.{ℕ, suc, ◌+◌, ◌-◌, ◌^◌, ◌<◌, ◌≡◌, ◌≢◌, List, [], ◌∷◌, ◌++◌, length}
use simple_serv.Common.Family.{update}
use simple_serv.Utility.LockFreeQueue.{LockFreeQueue, u32, next, store}

-- Where the pushing thread stands, with its locals.
pub data PushPc (T : Type 0) : Type 0 where
  idle : PushPc T
  loaded : (elem : T) (tail : ℕ) → PushPc T
  written : (elem : T) (tail : ℕ) → PushPc T
  published : PushPc T

-- Where a popping thread stands. Behind the local `head` stands the number of the element that it
-- is about, which counts the claims made before `head` was loaded.
pub data PopPc (T : Type 0) : Type 0 where
  idle : PopPc T
  loaded : (head number : ℕ) → PopPc T
  checked : (head number : ℕ) → PopPc T
  claimed : (head number : ℕ) → PopPc T
  copied : (number : ℕ) (result : T) → PopPc T

pub record System (T : Type 0) : Type 0 where
  pub queue : LockFreeQueue T
  pub pusher : PushPc T
  pub poppers : ℕ → PopPc T
  pub pushed : List T
  pub claims : ℕ

module _ {T : Type 0} (capacity : ℕ) where
  -- One step of the thread that runs `push`
  pub data PushStep (s : System T) : PushPc T → System T → Type 0 where
    load : (elem : T) → PushStep s idle (record s { pusher = loaded elem s.queue.tail })
    write :
        {elem : T} {tail : ℕ}
        → PushStep s (loaded elem tail) (record s {
          queue = record s.queue { arr = store capacity s.queue.arr tail elem };
          pusher = written elem tail;
        })
    publish :
        {elem : T} {tail : ℕ}
        → PushStep s (written elem tail) (record s {
          queue = record s.queue { tail = next capacity tail };
          pusher = published;
          pushed = s.pushed ++ elem ∷ [];
        })
    count :
        PushStep s published
          (record s { queue = record s.queue { size = u32 (s.queue.size + 1) }; pusher = idle })

  -- One step of a thread `i` that runs `pop`. The exchange may fail at any time.
  pub data PopStep (s : System T) (i : ℕ) : PopPc T → System T → Type 0 where
    load :
        PopStep s i idle (record s { poppers = update s.poppers i (loaded s.queue.head s.claims) })
    see_empty :
        {head number : ℕ}
        → head ≡ s.queue.tail
        → PopStep s i (loaded head number) (record s { poppers = update s.poppers i idle })
    see_element :
        {head number : ℕ}
        → head ≢ s.queue.tail
        → PopStep s i
            (loaded head number)
            (record s { poppers = update s.poppers i (checked head number) })
    fail :
        {head number : ℕ}
        → PopStep s i (checked head number) (record s { poppers = update s.poppers i idle })
    claim :
        {head number : ℕ}
        → s.queue.head ≡ head
        → PopStep s i (checked head number) (record s {
          queue = record s.queue { head = next capacity head };
          poppers = update s.poppers i (claimed head number);
          claims = suc s.claims;
        })
    copy :
        {head number : ℕ}
        → PopStep s i
            (claimed head number)
            (record s { poppers = update s.poppers i (copied number (s.queue.arr head)) })
    discount :
        {number : ℕ} {result : T}
        → PopStep s i (copied number result) (record s {
          queue = record s.queue { size = u32 (s.queue.size + (2 ^ 32 - 1)) };
          poppers = update s.poppers i idle;
        })

  -- `n` threads pop.
  pub data Step (n : ℕ) (s : System T) : System T → Type 0 where
    push_step : {t : System T} → PushStep s s.pusher t → Step n s t
    pop_step : {t : System T} (i : ℕ) → i < n → PopStep s i (s.poppers i) t → Step n s t

  -- The atomics are 0 at the start; `arr` is what the array holds then.
  abbrev pub initial : (ℕ → T) → System T
  initial arr = record {
    queue = record { arr = arr; head = 0; tail = 0; size = 0 };
    pusher = idle;
    poppers = λ _. idle;
    pushed = [];
    claims = 0;
  }

  pub data Reach (n : ℕ) (arr : ℕ → T) : System T → Type 0 where
    start : Reach n arr (initial arr)
    later : {s t : System T} → Reach n arr s → Step n s t → Reach n arr t
