-- ===== src/Tests/Artifacts.antt =====
-- Artifacts and groups in a small database, and the statistics of a cache.
use cargobay.Prelude.{String, ◌≡◌, ◌≤◌, ◌*◌, refl, none, some, List, [], ◌∷◌, Result, ok, true}
use cargobay.Prelude.GoMap
use cargobay.Prelude.GoMap.{GoMap}
use cargobay.Database.Models.{ArtifactMetadata}
use cargobay.Database.Tables.{Db, empty, exec, exec_at, finish, failing, update_where}
use cargobay.Database.Groups.{delete_group, without_group}
use cargobay.Database.Groups.Deletion.{IsGone, delete_group_effect}
use cargobay.Database.Artifacts.{
  save_artifact, save_or_retry, save_artifact_statement, same_version, is_version, saved_over,
}
use cargobay.Database.Artifacts.Saved.{IsSaved, stamped, save_artifact_lem}
use cargobay.Cache.{
  RedisClient, Cache, no_stats, count_miss, count_error, count_hit, count_entry, got, get, stored,
  set_with_ttl, delete, hit_rate,
}
use cargobay.Cache.Statistics.{Call, getting, setting, deleting, run, run_all, hit_rate_bound}

abbrev pub image : ArtifactMetadata
image = record {
  id = "docker:docker:library_nginx:latest";
  registry_id = "docker";
  artifact_type = "docker";
  namespace = "library";
  artifact_name = "nginx";
  version = "latest";
  digest = "sha256:00";
  digest_algorithm = "sha256";
  size = 2;
  total_size = 2;
  created = 5;
  updated = 5;
  metadata = [];
  tags = "latest" ∷ [];
  signatures = [];
  downloads = 7;
  bandwidth_saved = 0;
}

abbrev pub images : Db
images = record empty { artifacts = image ∷ []; now = 9 }

-- the tag again, with another digest
abbrev repushed : ArtifactMetadata
repushed = record image { digest = "sha256:01"; downloads = 0 }

abbrev after_push : Db
after_push = record images { artifacts = record image { digest = "sha256:01"; updated = 9 } ∷ [] }

pushed : save_artifact "id" repushed images ≡ (after_push, none)
unfolding save_artifact save_or_retry save_artifact_statement same_version is_version saved_over
    update_where exec exec_at finish
pushed = refl

save_artifact_lem_example : IsSaved (stamped "id" repushed 9) images after_push
save_artifact_lem_example = save_artifact_lem "id" repushed images after_push pushed

abbrev teams : Db
teams = record empty {
  groups = record { id = "devs"; name = "Developers"; description = ""; created_at = 1 } ∷ [];
  group_members = ("devs", "ann") ∷ [];
  registry_group_access =
      record {
        registry_id = "tools";
        group_id = "devs";
        can_read = true;
        can_publish = true;
        granted_at = 2;
      }
      ∷ [];
}

group_deleted : delete_group "devs" teams ≡ (empty, none)
unfolding delete_group without_group failing exec exec_at finish
group_deleted = refl

delete_group_effect_example : IsGone "devs" teams empty
delete_group_effect_example = delete_group_effect "devs" teams empty group_deleted

-- a server that is a map, and forgets nothing
abbrev pub map_client : RedisClient
map_client = record {
  Server = GoMap String;
  get = λ key m. (m, ok (GoMap.get key m));
  set = λ key payload ttl m. (GoMap.put key payload m, none);
  del = λ key m. (GoMap.delete key m, none);
  exists = λ key m. (m, ok 0);
  incr = λ key m. (m, ok 1);
  expire = λ key ttl m. m;
}

abbrev pub cold : Cache map_client
cold = record {
  client = [];
  ttl = 3600;
  artifact_ttl = 86400;
  registry_ttl = 300;
  search_ttl = 900;
  stats = no_stats;
}

abbrev pub as_text : String → Result String
as_text s = ok s

abbrev session : List Call
session = setting (ok "v") "k" 60 ∷ getting "k" ∷ getting "x" ∷ deleting "k" ∷ []

session_rate : hit_rate map_client (run_all map_client as_text session cold) ≡ some (1, 3)
unfolding hit_rate run_all run get got set_with_ttl stored delete count_miss count_hit count_entry
    count_error GoMap.get GoMap.put GoMap.delete
session_rate = refl

hit_rate_bound_example : 2 * 1 ≤ 3
hit_rate_bound_example = hit_rate_bound map_client as_text session cold 1 3 refl session_rate
