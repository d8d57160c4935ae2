-- ===== src/Backup/Tests.antt =====
-- A pass over two tenants, one of which cannot be exported, with an old backup of it.
use my_palace.Common.{
  ◌+◌, ◌*◌, ◌≤◌, ◌≡◌, ◌⊎◌, true, false, none, some, List, [], ◌∷◌, text_eq, codes, Codes, In, arith,
  if◌then◌else◌,
}
use my_palace.Backup.{File, Env, is_backup, run_once}
use my_palace.Backup.Pass.{backup_file, run_once-Pass}

abbrev env : Env
env = record {
  now = 1_000_000;
  stamp = codes "20261126T000000Z";
  tenants = codes "acme" ∷ codes "blue" ∷ [];
  export = λ t. if text_eq t (codes "acme") then some (codes "{}") else none;
  partial = λ t. codes "{";
  pruned_at = 1_000_100;
  locked = λ n. false;
}

abbrev files : List File
files =
    record { name = codes "blue-20261101T000000Z.ndjson.gz"; content = codes "{}"; mtime = 0 }
    ∷ record { name = codes "notes.txt"; content = codes "keep"; mtime = 0 }
    ∷ []

run_once-Pass_example :
    let (summary, left) = run_once env 7 files in
    (summary.succeeded + summary.failed ≡ 2)
    × ((t content : Codes)
        → In t (codes "acme" ∷ codes "blue" ∷ [])
        → env.export t ≡ some content
        → In (backup_file env t content) left)
    × ((f : File)
        → In f left
        → is_backup f.name ≡ true
        → (1_000_100 ≤ f.mtime + 7 * 86_400) ⊎ (false ≡ true))
run_once-Pass_example = run_once-Pass env 7 files (omega arith)
