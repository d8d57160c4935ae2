-- ===== src/Backup.antt =====
-- mypalace/workers/backup.py: one pass of the backup worker over a directory of files.
pub mod Pass
pub mod Tests
use my_palace.Common.{
  ℕ, ◌+◌, ◌-◌, ◌*◌, Bool, true, false, not, ◌&&◌, String, Option, none, some, List, [], ◌∷◌, ◌++◌,
  filter, any, drop, length, ltb, leb, text_eq, codes, Codes, if◌then◌else◌,
}

pub record File : Type 0 where
  pub name : Codes
  pub content : Codes
  pub mtime : ℕ

-- The directory, the tenants and the clock. `export` is the stream of a tenant's export, `none` if it
-- raises, of which `partial` has been written; `locked` are the names whose `unlink` raises.
pub record Env : Type 0 where
  pub now : ℕ
  pub stamp : Codes
  pub tenants : List Codes
  pub export : Codes → Option Codes
  pub partial : Codes → Codes
  pub pruned_at : ℕ
  pub locked : Codes → Bool

pub record Summary : Type 0 where
  pub tenants_total : ℕ
  pub succeeded : ℕ
  pub failed : ℕ
  pub pruned : ℕ

abbrev suffix : Codes
suffix = codes ".ndjson.gz"

-- _backup_path
unfoldable pub backup_path : Codes → Codes → Codes
backup_path stamp tenant_id = tenant_id ++ (codes "-" ++ stamp ++ suffix)

pub tmp_path : Codes → Codes → Codes
unfolding backup_path
tmp_path stamp tenant_id = backup_path stamp tenant_id ++ codes ".tmp"

abbrev pub without_name : Codes → List File → List File
without_name name = filter λ f. not (text_eq f.name name)

-- A file that is written under a name, in place of the one that was there.
pub written : File → List File → List File
written f files = without_name f.name files ++ f ∷ []

-- A file is written under its temporary name and renamed when it is whole.
pub backed_up : Env → Codes → Option Codes → List File → Bool × List File
unfolding written
backed_up env tenant_id none files = (
  false,
  written
      (record {
        name = tmp_path env.stamp tenant_id;
        content = env.partial tenant_id;
        mtime = env.now;
      })
      files,
)
backed_up env tenant_id (some content) files = (
  true,
  written (record { name = backup_path env.stamp tenant_id; content = content; mtime = env.now })
      (without_name (tmp_path env.stamp tenant_id) files),
)

pub backup_tenant : Env → Codes → List File → Bool × List File
unfolding backed_up
backup_tenant env tenant_id files = backed_up env tenant_id (env.export tenant_id) files

-- The loop over the tenants, with the numbers of those that succeeded and of those that failed.
pub backup_all : Env → List Codes → ℕ → ℕ → List File → ℕ × ℕ × List File
unfolding backup_tenant
backup_all env [] succeeded failed files = (succeeded, failed, files)
backup_all env (t ∷ ts) succeeded failed files =
    let (done, files') = backup_tenant env t files in
    let good = backup_all env ts (succeeded + 1) failed files' in
    let bad = backup_all env ts succeeded (failed + 1) files' in if done then good else bad

-- The glob `*.ndjson.gz`
unfoldable pub is_backup : Codes → Bool
is_backup name =
    leb (length suffix) (length name) && text_eq (drop (length name - length suffix) name) suffix

-- A file that the pruning takes; the cutoff is compared without subtraction.
pub is_pruned : Env → ℕ → File → Bool
unfolding is_backup
is_pruned env retain_days f =
    is_backup f.name
    && ltb (f.mtime + retain_days * 86_400) env.pruned_at
    && not (env.locked f.name)

pub prune_old_backups : Env → ℕ → List File → ℕ × List File
unfolding is_pruned
prune_old_backups env retain_days files = (
  length (filter (is_pruned env retain_days) files),
  filter (λ f. not (is_pruned env retain_days f)) files,
)

unfoldable pub run_once : Env → ℕ → List File → Summary × List File
unfolding backup_all prune_old_backups
run_once env retain_days files =
    let (succeeded, failed, files') = backup_all env env.tenants 0 0 files in
    let (pruned, files'') = prune_old_backups env retain_days files' in
    (
      record {
        tenants_total = length env.tenants;
        succeeded = succeeded;
        failed = failed;
        pruned = pruned;
      },
      files'',
    )
