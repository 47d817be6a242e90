-- ===== src/Examples/Traffic.antt =====
-- Two calls for one identity at the same time.
use authzmtls.Common.{
  ℕ, zero, suc, ◌<◌, pos, ◌≡◌, ◌≢◌, ◌⊎◌, refl, inl, false, List, [], ◌∷◌, none, some, Bytes, codes,
  bytes_eq, bytes_eq_iff, bytes_eq_refl, bytes_in, arith, Result, ok, ok-injective, sym, lookup,
  lookup-insert, if◌then◌else◌,
}
use authzmtls.Datasources.Cache.Flight.Family.{total}
use authzmtls.Datasources.Cache.Flight.Identity.{Keyed}
use authzmtls.Datasources.Cache.Flight.Provenance.{Provides, AllNamed, Reach-answered}
use authzmtls.Rules.Expand.{VarMap}
use authzmtls.Datasources.Cache.Flight.Inv.{flies, refreshing}
use authzmtls.Datasources.Cache.Flight.Keeping.{Step-Spares}
use authzmtls.Datasources.Cache.Flight.Landing.{Reach-Lands}
use authzmtls.Datasources.Cache.Flight.Overlap.{Reach-alone}
use authzmtls.Datasources.Cache.Flight.Recall.{IsEvicting, Knows}
use authzmtls.Datasources.Cache.Flight.Solo.{run-Resolved}
use authzmtls.Datasources.Cache.Resolved.{Resolved}
use authzmtls.Datasources.Cache.Flight.{
  Group, IsGroup, waiting, answered, Traffic, advance, become, arrives, moves, quiet, Reach, opened,
  next, run, entered,
}
use authzmtls.Datasources.Cache.{Backend, identity_of, CacheEntry, served_fresh, settle_refresh}
use authzmtls.Examples.Sources.{unbounded, unbounded-IsLru, directory, jdoe, at, known}

-- The keys in flight.
abbrev without : Bytes → List Bytes → List Bytes
without k [] = []
without k (j ∷ g) = if bytes_eq j k then without k g else j ∷ without k g

abbrev flights : Group (List Bytes)
flights = record { busy = bytes_in; begin = λ k g. k ∷ g; finish = without }

busy-without : (k : Bytes) (g : List Bytes) → bytes_in k (without k g) ≡ false
busy-without k [] = refl
busy-without k (j ∷ g) = ground (arith, busy-without k g, bytes_eq_iff j k, bytes_eq_iff k j)

busy-without_other :
    (j k : Bytes) (g : List Bytes) → j ≢ k → bytes_in j (without k g) ≡ bytes_in j g
busy-without_other j k [] d = refl
busy-without_other j k (i ∷ g) d =
    ground (arith, busy-without_other j k g d, bytes_eq_iff i k, bytes_eq_iff j i)

flights-IsGroup : IsGroup flights
flights-IsGroup = record {
  busy-begin = λ k g. ground (arith, bytes_eq_refl k);
  busy-finish = busy-without;
  busy-begin_other = λ j k g d. ground (arith, bytes_eq_iff j k);
  busy-finish_other = busy-without_other;
}

unbounded-IsEvicting : IsEvicting unbounded
unfolding lookup
unbounded-IsEvicting = record {
  get-add_other = λ j k e l d. inl (ground (arith, lookup-insert j k e l, bytes_eq_iff j k));
}

abbrev Scene : Type 0
Scene = Traffic (List (Bytes × CacheEntry)) ℕ (List Bytes)

module _ (backend : Backend ℕ) where
  abbrev moved : ℕ → ℕ → Scene → Scene
  moved = run unbounded backend flights (pos 5) (pos 30)

  abbrev Reached : Scene → Type 0
  Reached = Reach unbounded backend flights (pos 5) (pos 30) 2

  reach_run : (m i : ℕ) (s : Scene) → i < 2 → Reached s → Reached (moved m i s)
  reach_run zero i s lt r = r
  reach_run (suc m) i s lt r = reach_run m i _ lt (next r (moves i lt))

abbrev enters : ℕ → Scene → Scene
enters i = become unbounded directory flights (pos 5) (pos 30) i (entered jdoe)

abbrev both : Scene
both = enters 1 (enters 0 (quiet unbounded directory flights (pos 5) (pos 30) (at known 50) []))

both-Reached : Reached directory both
both-Reached =
    next (next (opened (at known 50) [] (λ k. refl)) (arrives 0 jdoe (omega arith) refl))
      (arrives 1 jdoe (omega arith) refl)

-- The first call executes `refresh`; the second one waits for it.
abbrev joined : Scene
joined = moved directory 3 1 (moved directory 4 0 both)

joined-Reached : Reached directory joined
joined-Reached =
    reach_run directory 3 1 _ (omega arith)
      (reach_run directory 4 0 both (omega arith) both-Reached)

joined-waits : joined.calls 1 ≡ waiting (codes "CN=jdoe")
unfolding advance lookup bytes_eq served_fresh
joined-waits = refl

Reach-alone_example :
    ((i j : ℕ) (k : Bytes)
      → flies (joined.calls i) ≡ some k
      → flies (joined.calls j) ≡ some k
      → i ≡ j)
    × (joined.inflight ≡ pos (total refreshing 2 joined.calls))
Reach-alone_example =
    Reach-alone unbounded directory flights flights-IsGroup (pos 5) (pos 30) 2 joined-Reached

one_call : joined.inflight ≡ pos 1
unfolding advance lookup bytes_eq served_fresh
one_call = refl

Reach-Lands_example :
    (i : ℕ) × (flies (joined.calls i) ≡ some (codes "CN=jdoe"))
    × ((m : ℕ) × ((result : Result _) × Reached directory (moved directory m i joined)
          × ((moved directory m i joined).calls i ≡ answered result)
          × ((b : ℕ)
              → joined.calls b ≡ waiting (codes "CN=jdoe")
              → (moved directory m i joined).calls b ≡ answered result)))
Reach-Lands_example =
    Reach-Lands unbounded directory flights (pos 5) (pos 30) flights-IsGroup joined-Reached 1
      (codes "CN=jdoe") joined-waits

-- The live call has failed, and its result is not yet in the cache.
abbrev late : Scene
late = moved directory 1 0 joined

late-Reached : Reached directory late
late-Reached = reach_run directory 1 0 joined (omega arith) joined-Reached

late-Knows :
    Knows unbounded unbounded-IsLru unbounded-IsEvicting directory
      (pos 5)
      (pos 30)
      (codes "CN=jdoe")
      late.cached.cache
unfolding advance lookup bytes_eq served_fresh
late-Knows = (_, refl, refl)

Step-Spares_example :
    Knows unbounded unbounded-IsLru unbounded-IsEvicting directory
      (pos 5)
      (pos 30)
      (codes "CN=jdoe")
      (moved directory 1 0 late).cached.cache
    ⊎ (lookup (codes "CN=jdoe") (moved directory 1 0 late).cached.cache ≡ none)
Step-Spares_example =
    Step-Spares unbounded unbounded-IsLru unbounded-IsEvicting directory flights (pos 5) (pos 30) 2
      flights-IsGroup late-Reached (moves 0 (omega arith)) (codes "CN=jdoe") late-Knows

abbrev single : Scene
single = enters 0 (quiet unbounded directory flights (pos 5) (pos 30) (at [] 0) [])

run-Resolved_example :
    (r : Result VarMap) × ((moved directory 7 0 single).calls 0 ≡ answered r)
    × Resolved unbounded directory
        (pos 5)
        (pos 30)
        jdoe
        (at [] 0)
        r
        (moved directory 7 0 single).cached
run-Resolved_example =
    run-Resolved unbounded directory flights (pos 5) (pos 30) 0 jdoe single refl refl

-- A provider that gives each identity its own name.
abbrev namer : Backend ℕ
namer = record {
  now = λ w. (pos w, w);
  resolve = λ vars w. (ok ((codes "USER", identity_of vars ∷ []) ∷ []), suc w);
}

abbrev Named : Bytes → VarMap → Type 0
Named k v = v ≡ (codes "USER", k ∷ []) ∷ []

abbrev asked : ℕ → Bytes
asked i = codes "CN=jdoe"

abbrev NamedAll : {s : Scene} → Reached namer s → Type 0
NamedAll =
    AllNamed unbounded unbounded-IsLru unbounded-IsEvicting namer flights (pos 5) (pos 30) 2 Named
      asked

NamedAll-run :
    (m i : ℕ) (s : Scene) (lt : i < 2) (r : Reached namer s)
    → NamedAll r
    → NamedAll (reach_run namer m i s lt r)
unfolding reach_run
NamedAll-run zero i s lt r h = h
NamedAll-run (suc m) i s lt r h = NamedAll-run m i _ lt (next r (moves i lt)) (h, tt)

nothing-Keyed : Keyed unbounded unbounded-IsLru unbounded-IsEvicting namer (pos 5) (pos 30) Named []
unfolding lookup
nothing-Keyed k = tt

namer-Provides :
    Provides unbounded unbounded-IsLru unbounded-IsEvicting namer flights
      (pos 5)
      (pos 30)
      2
      Named
      asked
namer-Provides vars w v e = sym (ok-injective _ v e)

abbrev two_asked : Scene
two_asked = enters 1 (enters 0 (quiet unbounded namer flights (pos 5) (pos 30) (at [] 0) []))

-- Both calls are answered, the second one by the execution of the first.
abbrev done : Scene
done = moved namer 4 0 (moved namer 3 1 (moved namer 4 0 two_asked))

two_asked_Reached : Reached namer two_asked
two_asked_Reached =
    next (next (opened (at [] 0) [] (λ k. refl)) (arrives 0 jdoe (omega arith) refl))
      (arrives 1 jdoe (omega arith) refl)

done_Reached : Reached namer done
done_Reached = reach_run namer 4 0 _ (omega arith) (
    reach_run namer 3 1 _ (omega arith)
      (reach_run namer 4 0 two_asked (omega arith) two_asked_Reached))

done-NamedAll : NamedAll done_Reached
unfolding done_Reached two_asked_Reached lookup bytes_eq
done-NamedAll = NamedAll-run 4 0 _ (omega arith) _ (
    NamedAll-run 3 1 _ (omega arith) _
      (NamedAll-run 4 0 two_asked (omega arith) two_asked_Reached ((nothing-Keyed, refl), refl)))

abbrev jdoe_user : VarMap
jdoe_user = (codes "USER", codes "CN=jdoe" ∷ []) ∷ []

second_answer : done.calls 1 ≡ answered (ok jdoe_user)
unfolding advance lookup bytes_eq served_fresh settle_refresh
second_answer = refl

Reach-answered_example : Named (asked 1) jdoe_user
Reach-answered_example =
    Reach-answered unbounded unbounded-IsLru unbounded-IsEvicting namer flights (pos 5) (pos 30) 2
      Named asked done_Reached namer-Provides done-NamedAll 1 jdoe_user second_answer
