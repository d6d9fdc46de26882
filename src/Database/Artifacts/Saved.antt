-- ===== src/Database/Artifacts/Saved.antt =====
-- What SaveArtifact and the counters leave in the table of artifacts.
use mathlib.Core.Option
use cargobay.Prelude.{
  ℕ, String, Bool, true, false, ◌≡◌, refl, ap, ◌∙◌, subst, Option, none, some, List, [], ◌∷◌, ◌++◌,
  arith, inl, inr, Bool-cases, Error, ok, any, ◌==◌, eq_iff, if◌then◌else◌,
}
use cargobay.Database.Models.{ArtifactMetadata}
use cargobay.Database.Tables.{Db, query, exec, find_where, update_where}
use cargobay.Database.Tables.Rows.{
  query-if, or_else, find_where-update_where, find_where-append, find_where-any, any-find_where,
}
use cargobay.Database.Tables.Runs.{exec_ran, exec_failed, ok_injective}
use cargobay.Database.Artifacts.{
  is_version, same_version, get_artifact_by_params, saved_over, inserted, save_artifact_statement,
  retried, save_or_retry, save_artifact,
}

-- the row of a version after it was saved, from the row before
abbrev pub saved_row : ArtifactMetadata → Option ArtifactMetadata → ArtifactMetadata
saved_row m none = inserted m
saved_row m (some a) = saved_over m a

-- the artifact with what SaveArtifact fills in
abbrev pub stamped : String → ArtifactMetadata → ℕ → ArtifactMetadata
stamped uuid m now = record m { id = if m.id == "" then uuid else m.id; updated = now }

-- that the lookups of db' are those of db, but for the version that was saved
abbrev pub IsSaved : ArtifactMetadata → Db → Db → Type 0
IsSaved m db db' =
    (registry_id namespace artifact_name version : String)
    → get_artifact_by_params db' registry_id namespace artifact_name version ≡ (
        if is_version registry_id namespace artifact_name version m
        then query "failed to get artifact" db
            (some (saved_row m (find_where (same_version m) db.artifacts)))
        else get_artifact_by_params db registry_id namespace artifact_name version)

eq_swap : (a b : String) → (a == b) ≡ (b == a)
eq_swap a b = ground (arith, eq_iff a b, eq_iff b a)

-- what a passed test says of the key
key_of :
    (r n a v : String) (x : ArtifactMetadata)
    → is_version r n a v x ≡ true
    → (x.registry_id ≡ r) × (x.namespace ≡ n) × (x.artifact_name ≡ a) × (x.version ≡ v)
unfolding is_version
key_of r n a v x h = (
  ground (arith, eq_iff x.registry_id r),
  ground (arith, eq_iff x.namespace n),
  ground (arith, eq_iff x.artifact_name a),
  ground (arith, eq_iff x.version v),
)

-- rows that agree on the key pass the same tests
keyed :
    (r n a v : String) (m x : ArtifactMetadata)
    → is_version r n a v x ≡ true
    → same_version m x ≡ is_version r n a v m
unfolding same_version is_version
keyed r n a v m x h =
    let (er, en, ea, ev) = key_of r n a v x h in
    rw
      (
        er,
        en,
        ea,
        ev,
        eq_swap m.registry_id r,
        eq_swap m.namespace n,
        eq_swap m.artifact_name a,
        eq_swap m.version v,
      )
      refl

-- where the version is the one that is looked up, the two tests are one
same_test :
    (r n a v : String) (m : ArtifactMetadata)
    → is_version r n a v m ≡ true
    → (x : ArtifactMetadata) → same_version m x ≡ is_version r n a v x
unfolding same_version
same_test r n a v m h x = let (er, en, ea, ev) = key_of r n a v m h in rw (er, en, ea, ev) refl

same_rows :
    (r n a v : String) (m : ArtifactMetadata) (xs : List ArtifactMetadata)
    → is_version r n a v m ≡ true
    → find_where (is_version r n a v) xs ≡ find_where (same_version m) xs
unfolding find_where
same_rows r n a v m [] h = refl
same_rows r n a v m (x ∷ xs) h = ground (arith, same_rows r n a v m xs h, same_test r n a v m h x)

kept_key :
    (m x : ArtifactMetadata) (r n a v : String)
    → is_version r n a v (saved_over m x) ≡ is_version r n a v x
unfolding saved_over is_version
kept_key m x r n a v = refl

-- of the version and of another: after an update, and after an insertion
changed_row :
    (m : ArtifactMetadata) (b : Bool) (p s : Option ArtifactMetadata) (old : ArtifactMetadata)
    → (b ≡ true → p ≡ s)
    → s ≡ some old
    → (if b then Option.map (saved_over m) p else p) ≡ (if b then some (saved_row m s) else p)
changed_row m false p s old h e = refl
changed_row m true p s old h e = rw (h refl, e) refl

added_row :
    (m : ArtifactMetadata) (b : Bool) (p s : Option ArtifactMetadata)
    → (b ≡ true → p ≡ s)
    → s ≡ none
    → or_else p (if b then some (inserted m) else none) ≡ (if b then some (saved_row m s) else p)
added_row m false none s h e = refl
added_row m false (some x) s h e = refl
added_row m true p s h e = rw (h refl, e) refl

-- the rows that the two branches of the statement leave
updated_rows :
    (m : ArtifactMetadata) (xs : List ArtifactMetadata) (r n a v : String)
    → any (same_version m) xs ≡ true
    → find_where (is_version r n a v) (update_where (same_version m) (saved_over m) xs) ≡ (
        if is_version r n a v m
        then some (saved_row m (find_where (same_version m) xs))
        else find_where (is_version r n a v) xs)
updated_rows m xs r n a v h =
    let (old, found) = any-find_where (same_version m) xs h in
    find_where-update_where (is_version r n a v) (same_version m) (saved_over m)
      (is_version r n a v m) xs (keyed r n a v m) (λ x. kept_key m x r n a v)
    ∙ changed_row m (is_version r n a v m) _ _ old (same_rows r n a v m xs) found

alone :
    (m : ArtifactMetadata) (r n a v : String)
    → find_where (is_version r n a v) (inserted m ∷ [])
      ≡ (if is_version r n a v m then some (inserted m) else none)
unfolding find_where is_version
alone m r n a v = refl

added_rows :
    (m : ArtifactMetadata) (xs : List ArtifactMetadata) (r n a v : String)
    → any (same_version m) xs ≡ false
    → find_where (is_version r n a v) (xs ++ inserted m ∷ []) ≡ (
        if is_version r n a v m
        then some (saved_row m (find_where (same_version m) xs))
        else find_where (is_version r n a v) xs)
added_rows m xs r n a v h =
    find_where-append (is_version r n a v) xs (inserted m ∷ [])
    ∙ ap (or_else (find_where (is_version r n a v) xs)) (alone m r n a v)
    ∙ added_row m (is_version r n a v m) _ _ (same_rows r n a v m xs)
        (find_where-any (same_version m) xs h)

-- the database whose rows are these
IsSaved-rows :
    (m : ArtifactMetadata) (db : Db) (rest : List (Option Error)) (rows : List ArtifactMetadata)
    → ((r n a v : String)
        → find_where (is_version r n a v) rows ≡ (
            if is_version r n a v m
            then some (saved_row m (find_where (same_version m) db.artifacts))
            else find_where (is_version r n a v) db.artifacts))
    → IsSaved m db (record db { outcomes = rest; artifacts = rows })
unfolding get_artifact_by_params query
IsSaved-rows m db rest rows h r n a v =
    let text : String = "failed to get artifact" in
    ap (query text db) (h r n a v) ∙ query-if text db (is_version r n a v m) _ _

statement_saves :
    (m : ArtifactMetadata) (db db' : Db) (rest : List (Option Error))
    → save_artifact_statement m (record db { outcomes = rest }) ≡ ok db'
    → IsSaved m db db'
unfolding save_artifact_statement
statement_saves m db db' rest h = elim (Bool-cases (any (same_version m) db.artifacts)) [
  | inl e ↦
      subst (IsSaved m db) (ok_injective (rw (e, save_artifact_statement) at h))
        (IsSaved-rows m db rest _ (λ r n a v. updated_rows m db.artifacts r n a v e))
  | inr e ↦ elim (Bool-cases (any (λ x. x.id == m.id) db.artifacts)) [
    | inl d ↦ cc (rw (e, d, save_artifact_statement) at h)
    | inr d ↦
        subst (IsSaved m db) (ok_injective (rw (e, d, save_artifact_statement) at h))
          (IsSaved-rows m db rest _ (λ r n a v. added_rows m db.artifacts r n a v e))
  ]
]

retried_lem :
    (e : Error) (ran : Db × Option Error) (db' : Db)
    → retried e ran ≡ (db', none)
    → ran ≡ (db', none)
unfolding retried
retried_lem e (db, none) db' h = h
retried_lem e (db, some x) db' h = cc

IsSaved-outcomes :
    (m : ArtifactMetadata) (db db' : Db) (rest : List (Option Error))
    → IsSaved m (record db { outcomes = rest }) db'
    → IsSaved m db db'
unfolding get_artifact_by_params query
IsSaved-outcomes m db db' rest h = h

retry_saves :
    (m : ArtifactMetadata) (db db1 db' : Db) (error : Option Error)
    → exec (save_artifact_statement m) db ≡ (db1, error)
    → save_or_retry (db1, error) m ≡ (db', none)
    → IsSaved m db db'
unfolding save_or_retry
retry_saves m db db1 db' none ran h =
    let same : db1 ≡ db' = ap (λ r. r.0) h in
    let (rest, e) = exec_ran (save_artifact_statement m) db db1 ran in
    subst (IsSaved m db) same (statement_saves m db db1 rest e)
retry_saves m db db1 db' (some x) ran h =
    let again = retried_lem x (exec (save_artifact_statement m) db1) db' h in
    let (rest1, left) = exec_failed (save_artifact_statement m) db db1 x ran in
    let (rest, e) = exec_ran (save_artifact_statement m) db1 db' again in
    let saved : IsSaved m db1 db' = statement_saves m db1 db' rest e in
    IsSaved-outcomes m db db' rest1 (subst (λ d. IsSaved m d db') left saved)

-- After SaveArtifact without an error, the lookup of the saved version finds the row with the new
-- digest, sizes, metadata, tags and signatures, and the time of now. A row that was there before
-- keeps its ID, its type, its creation time and its counters; a new one has the given ones, with
-- counters at 0. Every other version is looked up as before.
pub save_artifact_lem :
    (uuid : String) (m : ArtifactMetadata) (db db' : Db)
    → save_artifact uuid m db ≡ (db', none)
    → IsSaved (stamped uuid m db.now) db db'
unfolding save_artifact
save_artifact_lem uuid m db db' h = retry_saves (stamped uuid m db.now) db _ db' _ refl h
