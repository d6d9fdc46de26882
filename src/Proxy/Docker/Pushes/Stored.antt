-- ===== src/Proxy/Docker/Pushes/Stored.antt =====
-- What a pushed manifest leaves.
use cargobay.Prelude.{
  String, ◌≡◌, refl, sym, ap, ◌∙◌, subst, arith, Option, none, some, [], ◌∷◌, Bool-cases,
  Option-cases, inl, inr, Error, Result, ok, err,
}
use cargobay.Http.{status_created, status_bad_request}
use cargobay.Cache.{RedisClient}
use cargobay.Storage.{Reader, StorageAdapter, StorageLaws, IsOr}
use cargobay.Database.Models.{ArtifactMetadata, text}
use cargobay.Database.Tables.{Db}
use cargobay.Database.Artifacts.{save_artifact}
use cargobay.Database.Artifacts.Saved.{IsSaved, stamped, save_artifact_lem}
use cargobay.Proxy.Docker.Upstream.{Outside, read_all}
use cargobay.Proxy.Docker.Requests.{Reply, State, with_db, DockerTarget}
use cargobay.Proxy.Docker.Manifests.{contents, manifest_row, manifest_key}
use cargobay.Proxy.Docker.Pushes.{put_reply, put_row, put_stored, put_body, handle_put_manifest}

read_whole :
    (reader : Reader) {body : String}
    → read_all reader ≡ ok body
    → (reader.failure ≡ none) × (reader.payload ≡ body)
unfolding read_all
read_whole reader {body} h = elim (Option-cases reader.failure) [
  | inl e ↦ (e, ap value_or (rw (e, read_all) at h))
  | inr (x, e) ↦ cc (rw (e, read_all) at h)
]
  where
    value_or : Result String → String
    value_or (ok x) = x
    value_or (err e) = ""

module _ (out : Outside) (adapter : StorageAdapter) (redis : RedisClient) where
  -- the row of a pushed manifest
  abbrev pub pushed_row :
      DockerTarget → String → String → String → State adapter redis → ArtifactMetadata
  pushed_row t repository reference body st =
      manifest_row out st.rbac.db t.label repository reference body
        (("manifest", text (out.json_text body)) ∷ []) (contents out t.reg repository body).1

  -- what is stored where the push was answered with 201
  abbrev pub IsPushed :
      DockerTarget → String → String → String → State adapter redis → State adapter redis → Type 0
  IsPushed t repository reference body st st' =
      IsSaved (stamped "" (pushed_row t repository reference body st) st.rbac.db.now) st.rbac.db
        st'.rbac.db
      × IsOr (some body)
          (adapter.get_artifact_stream (manifest_key out t.label repository reference) st'.store)

  abbrev Created : State adapter redis → State adapter redis × Reply → Type 0
  Created st' run = (run.0 ≡ st') × (run.1.status ≡ status_created)

  replied :
      (digest : String) (st st' : State adapter redis) (run : Db × Option Error)
      → Created st' (put_reply out adapter redis digest st run)
      → (run ≡ (st'.rbac.db, none)) × (st.store ≡ st'.store)
  unfolding put_reply with_db
  replied digest st st' (db', none) (h, s) = (
    ap (λ (x : State adapter redis). (x.rbac.db, none)) h,
    ap (λ (x : State adapter redis). x.store) h,
  )
  replied digest st st' (db', some e) (h, s) = absurd (omega (arith, s))

  stored_put :
      (t : DockerTarget) (repository reference body : String) (st st' : State adapter redis)
      (saved : Result String)
      → Created st' (put_stored out adapter redis t repository reference body st saved)
      → ((ref : String) × (saved ≡ ok ref))
        × (save_artifact "" (pushed_row t repository reference body st) st.rbac.db
            ≡ (st'.rbac.db, none))
        × (st.store ≡ st'.store)
  unfolding put_stored put_row
  stored_put t repository reference body st st' (err e) (h, s) = absurd (omega (arith, s))
  stored_put t repository reference body st st' (ok ref) h =
      let (ran, store) = replied _ st st' _ h in ((ref, refl), ran, store)

  run_put :
      (t : DockerTarget) (repository reference body : String) (st st' : State adapter redis)
      (run : adapter.Store × Result String)
      → StorageLaws adapter (manifest_key out t.label repository reference)
      → adapter.save_artifact (manifest_key out t.label repository reference) body st.store ≡ run
      → Created st' (
          put_stored out adapter redis t repository reference body
            (record st { store = run.0 })
            run.1)
      → IsPushed t repository reference body st st'
  run_put t repository reference body st st' (store, saved) laws stored h =
      let key = manifest_key out t.label repository reference in
      let ((ref, same), ran, kept) =
        stored_put t repository reference body (record st { store = store }) st' saved h in
      let back : IsOr (some body) (adapter.get_artifact_stream key store) =
        laws.saved body st.store store ref (stored ∙ ap (λ x. (store, x)) same) in
      (
        save_artifact_lem "" (pushed_row t repository reference body st) st.rbac.db st'.rbac.db ran,
        subst (λ x. IsOr (some body) (adapter.get_artifact_stream key x)) kept back,
      )

  body_put :
      (t : DockerTarget) (repository reference : String) (st st' : State adapter redis)
      (sent : Result String)
      → StorageLaws adapter (manifest_key out t.label repository reference)
      → Created st' (put_body out adapter redis t repository reference sent st)
      → (body : String) × (sent ≡ ok body) × IsPushed t repository reference body st st'
  unfolding put_body
  body_put t repository reference st st' (err e) laws (h, s) = absurd (omega (arith, s))
  body_put t repository reference st st' (ok body) laws (h, s) =
      elim (Bool-cases (out.is_object body)) [
        | inr e ↦
            let bad : status_bad_request ≡ status_created = rw (e, put_body) at s in
            absurd (omega (arith, bad))
        | inl e ↦ (
          body,
          refl,
          run_put t repository reference body st st' _ laws refl
              (rw (e, put_body) at h, rw (e, put_body) at s),
        )
      ]

  -- Where the docker proxy answers 201 to a pushed manifest, it had read the whole body, and stored
  -- it. The lookup of the reference in the table finds a row with the digest of the body, and with
  -- the body as JSON has kept it as its manifest: with U+FFFD for what is not UTF-8. Every other
  -- artifact is looked up as before. The storage gives back the body itself under the key of the
  -- manifest, or fails to read. Of the storage it is assumed that it keeps its laws for this key.
  pub put_manifest-IsPushed :
      (t : DockerTarget) (repository reference : String) (reader : Reader)
      (st st' : State adapter redis) (answer : Reply)
      → StorageLaws adapter (manifest_key out t.label repository reference)
      → handle_put_manifest out adapter redis t repository reference reader st ≡ (st', answer)
      → answer.status ≡ status_created
      → (reader.failure ≡ none) × IsPushed t repository reference reader.payload st st'
  unfolding handle_put_manifest read_all
  put_manifest-IsPushed t repository reference reader st st' answer laws h s =
      let made : Created st'
          (put_body out adapter redis t repository reference (read_all reader) st) =
        (ap (λ x. x.0) h, ap (λ x. x.1.status) h ∙ s) in
      let (body, sent, pushed) =
        body_put t repository reference st st' (read_all reader) laws made in
      let (whole, same) = read_whole reader sent in
      (whole, subst (λ x. IsPushed t repository reference x st st') (sym same) pushed)
