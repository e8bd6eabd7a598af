-- ===== src/Discovery/Timer.antt =====
-- Source/User/iscsid/iSCSIDaemon.c: the timer of the discovery, its mutex and its threads. The POSIX mutex
-- is a parameter, and so is whether pthread_create succeeds.
use i_scsiinitiator.Base.{
  ℕ, suc, ◌+◌, ◌-◌, Bool, true, false, List, [], ◌∷◌, ◌≡◌, refl, arith, if◌then◌else◌,
}

-- pthread_mutex_trylock, which returns whether it failed, and pthread_mutex_unlock
pub record Mutex (M : Type 0) : Type 0 where
  pub held : M → Bool
  pub trylock : M → Bool × M
  pub unlock : M → M

-- The documented behaviour: trylock fails exactly on a mutex that is held, and it is held behind the call.
-- Nothing is said of unlock, since the code unlocks in another thread than the one that locked.
pub record Documented {M : Type 0} (mutex : Mutex M) : Type 0 where
  pub fails : (m : M) → (mutex.trylock m).0 ≡ mutex.held m
  pub taken : (m : M) → mutex.held (mutex.trylock m).1 ≡ true

-- The mutex, and the discovery threads that run.
pub record State (M : Type 0) : Type 0 where
  pub discovery_mutex : M
  pub threads : ℕ

module _ {M : Type 0} (mutex : Mutex M) where
  -- iSCSIDLaunchDiscoveryThread
  unfoldable pub launch_discovery_thread : (created : Bool) → State M → State M
  launch_discovery_thread created s =
      let (error, m) = mutex.trylock s.discovery_mutex in
      record {
        discovery_mutex = m;
        threads = if error then if created then suc s.threads else s.threads else s.threads;
      }

  -- The end of iSCSIDRunDiscovery
  unfoldable pub run_discovery : State M → State M
  run_discovery s = record {
    discovery_mutex = mutex.unlock s.discovery_mutex;
    threads = s.threads - 1;
  }

  -- The timer goes off as often as the list says, and every thread can be created or not.
  unfoldable pub launch_all : List Bool → State M → State M
  launch_all [] s = s
  launch_all (created ∷ rest) s = launch_all rest (launch_discovery_thread created s)

  unfoldable pub creations : List Bool → ℕ
  creations [] = 0
  creations (created ∷ rest) = if created then suc (creations rest) else creations rest

  module _ (documented : Documented mutex) where
    launch-held :
        (created : Bool) (s : State M)
        → mutex.held s.discovery_mutex ≡ true
        → (mutex.held (launch_discovery_thread created s).discovery_mutex ≡ true)
          × ((launch_discovery_thread created s).threads
              ≡ (if created then suc s.threads else s.threads))
    unfolding launch_discovery_thread
    launch-held created s held =
        (documented.taken s.discovery_mutex, rw (documented.fails s.discovery_mutex) (rw held refl))

    launch_all-held :
        (ticks : List Bool) (s : State M)
        → mutex.held s.discovery_mutex ≡ true
        → (launch_all ticks s).threads ≡ s.threads + creations ticks
    unfolding launch_all creations
    launch_all-held [] s held = ground arith
    launch_all-held (created ∷ rest) s held =
        let (held', grown) = launch-held created s held in
        let later = launch_all-held rest (launch_discovery_thread created s) held' in
        ground (arith, later, grown)

    launch-free :
        (created : Bool) (s : State M)
        → mutex.held s.discovery_mutex ≡ false
        → (mutex.held (launch_discovery_thread created s).discovery_mutex ≡ true)
          × ((launch_discovery_thread created s).threads ≡ s.threads)
    unfolding launch_discovery_thread
    launch-free created s free =
        (documented.taken s.discovery_mutex, rw (documented.fails s.discovery_mutex) (rw free refl))

    -- Where no one holds the mutex, the next call by the timer starts no thread, it only takes the mutex,
    -- and every call behind it, as long as no one unlocks the mutex, adds a thread to those that run, if
    -- the thread can be created.
    pub launch_all-free :
        (first : Bool) (ticks : List Bool) (s : State M)
        → mutex.held s.discovery_mutex ≡ false
        → ((launch_discovery_thread first s).threads ≡ s.threads)
          × (mutex.held (launch_discovery_thread first s).discovery_mutex ≡ true)
          × ((launch_all (first ∷ ticks) s).threads ≡ s.threads + creations ticks)
    unfolding launch_all
    launch_all-free first ticks s free =
        let (held, idle) = launch-free first s free in
        let later = launch_all-held ticks (launch_discovery_thread first s) held in
        (idle, held, ground (arith, idle, later))
