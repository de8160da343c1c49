-- ===== src/Server/Profiles/Stored.antt =====
-- What `put` leaves in the library.
use soundwave.Base.{
  ℕ, suc, ◌+◌, ◌≡◌, ◌≢◌, ◌≤◌, ◌<◌, ◌⊎◌, inl, inr, refl, arith, List, [], ◌∷◌, Bool, true, false,
  ◌||◌, some, ◌==◌, Result, ok, err, ◌>>=◌, ◌∙◌, find, any, length, ==_refl, eq→==,
}
use soundwave.Base.Text.{trim}
use soundwave.Server.Profiles.{
  Profile, Library, ProfileError, ensure, validate, check_profiles, check_library, is_known,
  is_active, current, highest_id, stored_id, store_profile, put, no_active_profile,
}

-- The profile as it is stored under an identifier.
abbrev pub stored_as : ℕ → Profile → Profile
stored_as id given = record given { id = id; name = trim given.name }

find-store_profile :
    (id : ℕ) (p : Profile) (ps : List Profile)
    → p.id ≡ id
    → find (is_active (some id)) (store_profile p ps) ≡ some p
unfolding store_profile
find-store_profile id p [] e = ground (arith, eq→== p.id id)
find-store_profile id p (q ∷ qs) e = ground (arith, find-store_profile id p qs, eq→== p.id id)

-- What `put` computes where it succeeds.
put-ok :
    (library library' : Library) (given : Profile) (id : ℕ)
    → put library given ≡ ok (library', id)
    → (validate (record given { name = trim given.name }) ≡ ok tt)
      × (stored_id library (record given { name = trim given.name }) ≡ ok id)
      × (library' ≡ record library {
        profiles = store_profile (stored_as id given) library.profiles;
        active = some id;
      })
unfolding put
put-ok library library' given id h = ground arith

abbrev has_profile : ℕ → List Profile → Bool
has_profile id ps = any (λ q. q.id == id) ps

check_profiles-known :
    (id : ℕ) (ids out : List ℕ) (ps : List Profile)
    → check_profiles ids ps ≡ ok out
    → (any (λ i. i == id) ids || has_profile id ps) ≡ true
    → any (λ i. i == id) out ≡ true
unfolding check_profiles
check_profiles-known id ids out [] h k = ground arith
check_profiles-known id ids out (q ∷ qs) h k =
    ground (arith, check_profiles-known id (q.id ∷ ids) out qs)

-- A profile that replaces one of the same identifier keeps the library in order.
check_profiles-replace :
    (p : Profile) (ids out : List ℕ) (ps : List Profile)
    → validate p ≡ ok tt
    → check_profiles ids ps ≡ ok out
    → has_profile p.id ps ≡ true
    → check_profiles ids (store_profile p ps) ≡ ok out
unfolding check_profiles store_profile
check_profiles-replace p ids out [] v h k = absurd (ground arith)
check_profiles-replace p ids out (q ∷ qs) v h k =
    ground (arith, check_profiles-replace p (q.id ∷ ids) out qs v)

-- So does a profile of a new identifier.
check_profiles-append :
    (p : Profile) (ids out : List ℕ) (ps : List Profile)
    → validate p ≡ ok tt
    → check_profiles ids ps ≡ ok out
    → (any (λ i. i == p.id) ids || has_profile p.id ps) ≡ false
    → check_profiles ids (store_profile p ps) ≡ ok (p.id ∷ out)
unfolding check_profiles store_profile
check_profiles-append p ids out [] v h k = ground arith
check_profiles-append p ids out (q ∷ qs) v h k =
    ground (arith, check_profiles-append p (q.id ∷ ids) out qs v)

length-replace :
    (p : Profile) (ps : List Profile)
    → has_profile p.id ps ≡ true
    → length (store_profile p ps) ≡ length ps
unfolding store_profile
length-replace p [] k = absurd (ground arith)
length-replace p (q ∷ qs) k = ground (arith, length-replace p qs)

length-store_profile-le :
    (p : Profile) (ps : List Profile) → length (store_profile p ps) ≤ suc (length ps)
unfolding store_profile
length-store_profile-le p [] = omega arith
length-store_profile-le p (q ∷ qs) = ground (arith, length-store_profile-le p qs)

above_highest : (id : ℕ) (ps : List Profile) → highest_id ps < id → has_profile id ps ≡ false
above_highest id [] h = refl
above_highest id (q ∷ qs) h = ground (arith, above_highest id qs)

stored_id-new :
    (library : Library) (given : Profile) (id : ℕ)
    → stored_id library given ≡ ok id
    → ((given.id ≡ id) × (given.id ≢ 0))
      ⊎ ((given.id ≡ 0) × (id ≡ highest_id library.profiles + 1) × (length library.profiles < 128))
unfolding stored_id
stored_id-new library given id h = ground arith

validate-stored_as :
    (id : ℕ) (given : Profile)
    → validate (stored_as id given) ≡ validate (record given { name = trim given.name })
unfolding validate
validate-stored_as id given = refl

passed :
    (r : Result (List ℕ) ProfileError) (f : List ℕ → Result (Unit {0}) ProfileError)
    → (r >>= f) ≡ ok tt
    → (out : List ℕ) × (r ≡ ok out)
passed (ok out) f h = (out, refl)
passed (err e) f h = absurd (ground arith)

check_library-profiles :
    (library : Library)
    → check_library library ≡ ok tt
    → (library.version ≡ 1)
      × (length library.profiles ≤ 128)
      × ((out : List ℕ) × (check_profiles [] library.profiles ≡ ok out))
unfolding check_library
check_library-profiles library h = (
  ground arith,
  ground arith,
  passed (check_profiles [] library.profiles)
      (λ ids. ensure (is_known library.active ids) no_active_profile) (ground arith),
)

profiles-check_library :
    (library : Library) (out : List ℕ)
    → library.version ≡ 1
    → length library.profiles ≤ 128
    → check_profiles [] library.profiles ≡ ok out
    → is_known library.active out ≡ true
    → check_library library ≡ ok tt
unfolding check_library
profiles-check_library library out v l c k = ground arith

put_loads :
    (library : Library) (given : Profile) (id : ℕ) (out : List ℕ)
    → library.version ≡ 1
    → length library.profiles ≤ 128
    → check_profiles [] library.profiles ≡ ok out
    → validate (stored_as id given) ≡ ok tt
    → (has_profile id library.profiles ≡ true)
      ⊎ ((has_profile id library.profiles ≡ false) × (length library.profiles < 128))
    → check_library (record library {
      profiles = store_profile (stored_as id given) library.profiles;
      active = some id;
    })
      ≡ ok tt
put_loads library given id out v l c fine (inl there) =
    profiles-check_library _ out v
      (omega (arith, length-replace (stored_as id given) library.profiles there, l))
      (check_profiles-replace (stored_as id given) [] out library.profiles fine c there)
      (check_profiles-known id [] out library.profiles c there)
put_loads library given id out v l c fine (inr (new, room)) =
    profiles-check_library _ (id ∷ out) v
      (omega (arith, length-store_profile-le (stored_as id given) library.profiles, room))
      (check_profiles-append (stored_as id given) [] out library.profiles fine c new)
      (ground (arith, ==_refl id))

stored_where :
    (library : Library) (given : Profile) (id : ℕ)
    → ((given.id ≡ 0) ⊎ (has_profile given.id library.profiles ≡ true))
    → stored_id library given ≡ ok id
    → (has_profile id library.profiles ≡ true)
      ⊎ ((has_profile id library.profiles ≡ false) × (length library.profiles < 128))
stored_where library given id known h = elim (stored_id-new library given id h) [
  | inl (same, nonzero) ↦ inl (ground arith)
  | inr (zero_id, fresh, room) ↦ inr (above_highest id library.profiles (omega arith), room)
]

nonzero_id :
    (library : Library) (given : Profile) (id : ℕ) → stored_id library given ≡ ok id → id ≢ 0
nonzero_id library given id h = elim (stored_id-new library given id h) [
  | inl (same, nonzero) ↦ ground arith
  | inr (zero_id, fresh, room) ↦ ground arith
]

-- Where `put` succeeds on a library that `load` accepts, the profile having no identifier yet (0)
-- or that of one in the library, `load` accepts the new library too, and its current profile is
-- the one given, with its name trimmed, under the identifier returned, which is not 0.
pub put-check_library :
    (library library' : Library) (given : Profile) (id : ℕ)
    → check_library library ≡ ok tt
    → ((given.id ≡ 0) ⊎ (has_profile given.id library.profiles ≡ true))
    → put library given ≡ ok (library', id)
    → (check_library library' ≡ ok tt) × (current library' ≡ some (stored_as id given)) × (id ≢ 0)
unfolding current
put-check_library library library' given id loads known h =
    let (fine, numbered, is) = put-ok library library' given id h in
    let (v, l, (out, c)) = check_library-profiles library loads in
    rw is (
      put_loads library given id out v l c (validate-stored_as id given ∙ fine)
          (stored_where library (record given { name = trim given.name }) id known numbered),
      find-store_profile id (stored_as id given) library.profiles refl,
      nonzero_id library (record given { name = trim given.name }) id numbered,
    )
