-- ===== src/Types/Playlist/Refresh.antt =====
-- `refresh_sync_status` of types/src/core_types/network_playlist.rs.
use mathlib.Core.List.Perm
use mathlib.Core.Logic.{∥∥₁_elim}
use mathlib.Core.List.{Perm}
use mathlib.Core.List.{Permᴰ}
use libra_v.Prelude.{
  ℕ, suc, false, Bool, length-map, ◌+◌, ◌*◌, ◌%◌, ◌^◌, ◌||◌, length, is_some, ◌≤◌, Option, none,
  some, List, [], ◌∷◌, ◌≡◌, refl, sym, ap, ◌∙◌, true, map, All, All-mono, find, leb, arith,
  Bool-cases, inl, inr, Option-cases, ok, err, err≢ok, ok-injective,
}
use libra_v.Platform.{Platform}
use libra_v.Types.Profile.{no_verified_nodes}
use libra_v.Types.Playlist.{
  HostProfile, NetworkPlaylist, check_sync, mark_sync, rms, sum_squares, insert_by_version,
  sort_by_version, refresh_sync_status, the_best_one,
}
use libra_v.Types.Playlist.Pick.{is_good, the_best_one-find, best_or}

module _ (p : Platform) where
  -- No host of the list has a lower version.
  abbrev pub LeAll : HostProfile p → List (HostProfile p) → Type 0
  LeAll e = All (λ x. e.version ≤ x.version)

  -- The versions never fall.
  abbrev pub IsSorted : List (HostProfile p) → Type 0
  IsSorted [] = Unit
  IsSorted (e ∷ list) = LeAll e list × IsSorted list

  insert-LeAll :
      (d e : HostProfile p) (list : List (HostProfile p))
      → d.version ≤ e.version
      → LeAll d list
      → LeAll d (insert_by_version p e list)
  unfolding insert_by_version
  insert-LeAll d e [] h all = (h, tt)
  insert-LeAll d e (x ∷ list) h (hx, all) = elim (Bool-cases (leb e.version x.version)) [
    | inl le ↦ rw le (h, (hx, all))
    | inr gt ↦ rw gt (hx, insert-LeAll d e list h all)
  ]

  LeAll-trans :
      (d e : HostProfile p) (list : List (HostProfile p))
      → d.version ≤ e.version
      → LeAll e list
      → LeAll d list
  LeAll-trans d e [] h all = tt
  LeAll-trans d e (x ∷ list) h (hx, all) = (omega arith, LeAll-trans d e list h all)

  insert-IsSorted :
      (e : HostProfile p) (list : List (HostProfile p))
      → IsSorted list
      → IsSorted (insert_by_version p e list)
  unfolding insert_by_version
  insert-IsSorted e [] s = (tt, tt)
  insert-IsSorted e (x ∷ list) (hx, s) = elim (Bool-cases (leb e.version x.version)) [
    | inl le ↦ rw le ((ground arith, LeAll-trans e x list (ground arith) hx), (hx, s))
    | inr gt ↦ rw gt (insert-LeAll x e list (ground arith) hx, insert-IsSorted e list s)
  ]

  sort-IsSorted : (list : List (HostProfile p)) → IsSorted (sort_by_version p list)
  unfolding sort_by_version
  sort-IsSorted [] = tt
  sort-IsSorted (e ∷ list) = insert-IsSorted e _ (sort-IsSorted list)

  insert-perm :
      (e : HostProfile p) (list : List (HostProfile p))
      → Perm (insert_by_version p e list) (e ∷ list)
  unfolding insert_by_version
  insert-perm e [] = Perm.refl _
  insert-perm e (x ∷ list) = elim (Bool-cases (leb e.version x.version)) [
    | inl le ↦ rw le (Perm.refl _)
    | inr gt ↦ rw gt (Perm.trans (Perm.cons x (insert-perm e list)) (Perm.swap e x list))
  ]

  sort-perm : (list : List (HostProfile p)) → Perm (sort_by_version p list) list
  unfolding sort_by_version
  sort-perm [] = Perm.refl _
  sort-perm (e ∷ list) = Perm.trans (insert-perm e _) (Perm.cons e (sort-perm list))

  abbrev pub version_or : Option ℕ → ℕ → ℕ
  version_or none old = old
  version_or (some new) old = new

  -- The version of a host after it was asked: the one in its answer, or the one it had.
  abbrev pub version_after : (p.Url → Option ℕ) → HostProfile p → ℕ
  version_after index e = version_or (index e.url) e.version

  abbrev pub sum_of_squares : (p.Url → Option ℕ) → List (HostProfile p) → ℕ
  sum_of_squares index [] = 0
  sum_of_squares index (e ∷ list) =
      version_after index e * version_after index e + sum_of_squares index list

  -- The root mean square of the versions: their sum of squares wraps around at 2 ^ 64, and the mean and
  -- its root are those of f64.
  abbrev pub root_mean_square : (p.Url → Option ℕ) → List (HostProfile p) → p.F64
  root_mean_square index list =
      p.sqrt (p.div (p.of_u64 (sum_of_squares index list % 2 ^ 64)) (p.of_u64 (length list)))

  -- A host after a refresh, field by field. A host that was in sync stays marked.
  abbrev pub refreshed : (p.Url → Option ℕ) → p.F64 → HostProfile p → HostProfile p
  refreshed index r e = record {
    url = e.url;
    note = e.note;
    version = version_after index e;
    is_api = is_some (index e.url);
    is_sync = e.is_sync || p.geb (p.of_u64 (version_after index e)) r;
  }

  asked : (p.Url → Option ℕ) → HostProfile p → HostProfile p
  asked index e = record e { version = version_after index e; is_api = is_some (index e.url) }

  check_sync-asked :
      (index : p.Url → Option ℕ) (e : HostProfile p) → check_sync p index e ≡ asked index e
  unfolding check_sync asked
  check_sync-asked index e = elim (Option-cases (index e.url)) [
    | inl none_found ↦ rw (none_found, check_sync) refl
    | inr (v, found) ↦ rw (found, check_sync) refl
  ]

  or_true : (b : Bool) → b || true ≡ true
  or_true true = refl
  or_true false = refl

  or_false : (b : Bool) → b || false ≡ b
  or_false true = refl
  or_false false = refl

  mark_sync-or :
      (r : p.F64) (e : HostProfile p)
      → mark_sync p r e ≡ record e { is_sync = e.is_sync || p.geb (p.of_u64 e.version) r }
  unfolding mark_sync
  mark_sync-or r e = elim (Bool-cases (p.geb (p.of_u64 e.version) r)) [
    | inl h ↦
        rw (h, mark_sync) (ap (λ (b : Bool). record e { is_sync = b }) (sym (or_true e.is_sync)))
    | inr h ↦
        rw (h, mark_sync) (ap (λ (b : Bool). record e { is_sync = b }) (sym (or_false e.is_sync)))
  ]

  mark_sync-refreshed :
      (index : p.Url → Option ℕ) (r : p.F64) (e : HostProfile p)
      → mark_sync p r (check_sync p index e) ≡ refreshed index r e
  unfolding asked
  mark_sync-refreshed index r e =
      ap (mark_sync p r) (check_sync-asked index e) ∙ mark_sync-or r (asked index e)

  map-refreshed :
      (index : p.Url → Option ℕ) (r : p.F64) (list : List (HostProfile p))
      → map (mark_sync p r) (map (check_sync p index) list) ≡ map (refreshed index r) list
  map-refreshed index r [] = refl
  map-refreshed index r (e ∷ list) = cc (map-refreshed index r list, mark_sync-refreshed index r e)

  -- The sum of the squares without the wrapping.
  abbrev squares : List (HostProfile p) → ℕ
  squares [] = 0
  squares (e ∷ list) = e.version * e.version + squares list

  sum_squares_wraps : (list : List (HostProfile p)) → sum_squares p list ≡ squares list % 2 ^ 64
  unfolding sum_squares
  sum_squares_wraps [] = refl
  sum_squares_wraps (e ∷ list) = rw (sum_squares_wraps list) (omega arith)

  squares-check_sync :
      (index : p.Url → Option ℕ) (list : List (HostProfile p))
      → squares (map (check_sync p index) list) ≡ sum_of_squares index list
  unfolding asked
  squares-check_sync index [] = refl
  squares-check_sync index (e ∷ list) =
      rw (check_sync-asked index e, squares-check_sync index list) refl

  same_measures :
      {l m : List (HostProfile p)} → Permᴰ l m → (squares l ≡ squares m) × (length l ≡ length m)
  same_measures Permᴰ.nil = (refl, refl)
  same_measures (Permᴰ.cons e d) =
      let (s, n) = same_measures d in
      let v = ap (λ (x : HostProfile p). x.version) e in (rw (v, s) refl, ap suc n)
  same_measures (Permᴰ.swap e f) =
      let v = ap (λ (x : HostProfile p). x.version) e in
      let u = ap (λ (x : HostProfile p). x.version) f in (rw (v, u) (omega arith), refl)
  same_measures (Permᴰ.trans d e) =
      let (s, n) = same_measures d in let (t, m) = same_measures e in (s ∙ t, n ∙ m)

  perm_measures :
      {l m : List (HostProfile p)} → Perm l m → (squares l ≡ squares m) × (length l ≡ length m)
  perm_measures h = ∥∥₁_elim h (hlevel) same_measures

  module _ (shuffle arrive : List (HostProfile p) → List (HostProfile p)) (index : p.Url → Option ℕ)
      (self : NetworkPlaylist p) where
    -- The answers in the order of their arrival, whose versions are averaged.
    abbrev answers : List (HostProfile p)
    answers = arrive (map (check_sync p index) (shuffle self.nodes))

    abbrev pub refreshed_list : NetworkPlaylist p
    refreshed_list = refresh_sync_status p shuffle arrive index self

    answers-perm :
        ((list : List (HostProfile p)) → Perm (shuffle list) list)
        → ((list : List (HostProfile p)) → Perm (arrive list) list)
        → Perm answers (map (check_sync p index) self.nodes)
    answers-perm shuffles arrives =
        Perm.trans (arrives _) (Perm.map (check_sync p index) (shuffles self.nodes))

    rms-answers :
        ((list : List (HostProfile p)) → Perm (shuffle list) list)
        → ((list : List (HostProfile p)) → Perm (arrive list) list)
        → rms p answers ≡ root_mean_square index self.nodes
    unfolding rms
    rms-answers shuffles arrives =
        let (s, n) = perm_measures (answers-perm shuffles arrives) in
        let total = sum_squares_wraps answers in
        let count = n ∙ length-map self.nodes (check_sync p index) in
        rw (rms, total, s, squares-check_sync index self.nodes, count) refl

    -- If the random generator and the arrival of the answers only reorder, a refresh returns every
    -- host once, in an order in which the versions never fall, and keeps the name of the chain. Each
    -- host takes the version that it answers and is marked as an api if it answers; one that does not
    -- keeps its version, which counts in the mean all the same. A host whose version is at least
    -- the root mean square is marked as in sync, and no host loses its mark or is left out.
    pub refresh_exact :
        ((list : List (HostProfile p)) → Perm (shuffle list) list)
        → ((list : List (HostProfile p)) → Perm (arrive list) list)
        → Perm refreshed_list.nodes
            (map (refreshed index (root_mean_square index self.nodes)) self.nodes)
          × IsSorted refreshed_list.nodes
          × (refreshed_list.chain_name ≡ self.chain_name)
    unfolding refresh_sync_status
    refresh_exact shuffles arrives = (
      Perm.trans {l₂ = map (mark_sync p (rms p answers)) answers} (sort-perm _) (
          rw (← rms-answers shuffles arrives, ← map-refreshed index (rms p answers) self.nodes)
            (Perm.map (mark_sync p (rms p answers)) (answers-perm shuffles arrives))),
      sort-IsSorted (map (mark_sync p (rms p answers)) answers),
      refl,
    )

    refreshed-IsSorted : IsSorted refreshed_list.nodes
    unfolding refresh_sync_status
    refreshed-IsSorted = sort-IsSorted (map (mark_sync p (rms p answers)) answers)

  sorted-find :
      (list : List (HostProfile p)) (e : HostProfile p)
      → IsSorted list
      → find (is_good p) list ≡ some e
      → All (λ x. is_good p x ≡ true → e.version ≤ x.version) list
  sorted-find [] e s h = tt
  sorted-find (x ∷ list) e (hx, s) h = elim (Bool-cases (is_good p x)) [
    | inl good ↦
        let same : x ≡ e = ground arith in
        (
          λ _. omega (arith, ap (λ (y : HostProfile p). y.version) same),
          All-mono (λ y. x.version ≤ y.version) (λ y. is_good p y ≡ true → e.version ≤ y.version)
              (λ y le _. omega (arith, ap (λ (z : HostProfile p). z.version) same)) list hx,
        )
    | inr bad ↦ (λ good. cc (good, bad), sorted-find list e s (ground arith))
  ]

  -- If a refreshed playlist has a best one, this is a good host whose version is the lowest of all
  -- good hosts.
  pub refreshed_best_is_lowest :
      (shuffle arrive : List (HostProfile p) → List (HostProfile p)) (index : p.Url → Option ℕ)
      (self : NetworkPlaylist p) (u : p.Url)
      → the_best_one p (refreshed_list shuffle arrive index self) ≡ ok u
      → (e : HostProfile p) × (find (is_good p) (refreshed_list shuffle arrive index self).nodes
          ≡ some e)
        × (e.url ≡ u)
        × All
            (λ x. is_good p x ≡ true → e.version ≤ x.version)
            (refreshed_list shuffle arrive index self).nodes
  refreshed_best_is_lowest shuffle arrive index self u h =
      let r = refreshed_list shuffle arrive index self in
      let best_none = λ (m : find (is_good p) r.nodes ≡ none).
        sym (the_best_one-find p r ∙ ap (best_or p (err no_verified_nodes)) m) in
      let best_some = λ (e : HostProfile p) (m : find (is_good p) r.nodes ≡ some e).
        sym (the_best_one-find p r ∙ ap (best_or p (err no_verified_nodes)) m) in
      elim (Option-cases (find (is_good p) r.nodes)) [
        | inl missing ↦ absurd (err≢ok (best_none missing ∙ h))
        | inr (e, found) ↦ (
          e,
          found,
          ok-injective (best_some e found ∙ h),
          sorted-find r.nodes e (refreshed-IsSorted shuffle arrive index self) found,
        )
      ]
