-- ===== src/Backup/Pass.antt =====
-- What a pass of the backup worker leaves in the directory.
use mathlib.Core.List.{append_cancel_right}
use my_palace.Common.{
  ℕ, ◌+◌, ◌*◌, ◌≤◌, ◌≡◌, ◌≢◌, refl, sym, ap, ◌∙◌, subst, ◌⊎◌, inl, inr, true, false, not, Option,
  none, some, List, [], ◌∷◌, ◌++◌, length, text_eq, text_eq→≡, codes, Codes, In, In-filter,
  filter-In, In-append_left, In-append_right, arith, Bool-cases, text_eq_refl,
}
use my_palace.Backup.{
  File, Env, backup_path, tmp_path, without_name, written, backed_up, backup_tenant, backup_all,
  is_backup, is_pruned, prune_old_backups, run_once,
}

last_of : ℕ → Codes → ℕ
last_of d [] = d
last_of d (c ∷ s) = last_of c s

last_of-append : (d c : ℕ) (s t : Codes) → last_of d (s ++ c ∷ t) ≡ last_of c t
unfolding last_of
last_of-append d c [] t = refl
last_of-append d c (x ∷ s) t = last_of-append x c s t

-- No temporary name is one of a backup.
tmp_path-other : (stamp t u : Codes) → backup_path stamp t ≢ tmp_path stamp u
unfolding backup_path tmp_path last_of
tmp_path-other stamp t u e =
    let a =
      last_of-append 0 45 t (stamp ++ codes ".ndjson.gz")
      ∙ last_of-append 45 46 stamp (codes "ndjson.gz") in
    let b = last_of-append 0 46 (backup_path stamp u) (codes "tmp") in
    omega (arith, a, b, ap (last_of 0) e)

backup_path_injective : (stamp t u : Codes) → backup_path stamp t ≡ backup_path stamp u → t ≡ u
unfolding backup_path
backup_path_injective stamp t u e =
    append_cancel_right t u (codes "-" ++ stamp ++ codes ".ndjson.gz") e

without_name-In :
    (name : Codes) (f : File) (files : List File)
    → f.name ≢ name
    → In f files
    → In f (without_name name files)
without_name-In name f files other i =
    filter-In (λ (g : File). not (text_eq g.name name)) f files i
      (elim (Bool-cases (text_eq f.name name)) [
        | inl e ↦ absurd (other (text_eq→≡ f.name name e))
        | inr e ↦ rw e refl
      ])

written-In_self : (f : File) (files : List File) → In f (written f files)
unfolding written
written-In_self f files = In-append_right f (without_name f.name files) (f ∷ []) (inl refl)

written-In_other :
    (g f : File) (files : List File) → g.name ≢ f.name → In g files → In g (written f files)
unfolding written
written-In_other g f files other i =
    In-append_left g (without_name f.name files) (f ∷ []) (without_name-In f.name g files other i)

abbrev content_or : Codes → Option Codes → Codes
content_or default none = default
content_or default (some c) = c

module _ (env : Env) where
  -- The file of a tenant's backup.
  abbrev pub backup_file : Codes → Codes → File
  backup_file tenant_id content = record {
    name = backup_path env.stamp tenant_id;
    content = content;
    mtime = env.now;
  }

  module _ (t content : Codes) (exported : env.export t ≡ some content) where
    abbrev Kept : List File → Type 0
    Kept files = In (backup_file t content) files

    -- A backup of the same tenant is the same file.
    rewritten :
        (u c : Codes) (files : List File)
        → env.export u ≡ some c
        → (t ≡ u) ⊎ (text_eq (backup_path env.stamp t) (backup_path env.stamp u) ≡ false)
        → Kept files
        → Kept (written (backup_file u c) files)
    rewritten u c files e (inl q) i =
        let same : content ≡ c = ap (content_or content) (sym exported ∙ ap env.export q ∙ e) in
        subst (λ f. In f (written (backup_file u c) files))
          (ap (λ x. backup_file u x) (sym same) ∙ ap (λ x. backup_file x content) (sym q))
          (written-In_self (backup_file u c) files)
    rewritten u c files e (inr n) i =
        written-In_other (backup_file t content) (backup_file u c) files
          (λ q. absurd (cc (sym n, text_eq_refl (backup_path env.stamp t)))) i

    same_tenant :
        (u : Codes)
        → (t ≡ u) ⊎ (text_eq (backup_path env.stamp t) (backup_path env.stamp u) ≡ false)
    same_tenant u =
        elim (Bool-cases (text_eq (backup_path env.stamp t) (backup_path env.stamp u))) [
          | inl e ↦ inl (backup_path_injective env.stamp t u (text_eq→≡ _ _ e))
          | inr e ↦ inr e
        ]

    backed_up-Kept :
        (u : Codes) (o : Option Codes) (files : List File)
        → env.export u ≡ o
        → Kept files
        → Kept (backed_up env u o files).1
    unfolding backed_up
    backed_up-Kept u none files e i =
        written-In_other (backup_file t content) _ files (tmp_path-other env.stamp t u) i
    backed_up-Kept u (some c) files e i =
        rewritten u c (without_name (tmp_path env.stamp u) files) e (same_tenant u) (
          without_name-In (tmp_path env.stamp u) (backup_file t content) files
            (tmp_path-other env.stamp t u) i)

    backed_up-self :
        (o : Option Codes) (files : List File) → o ≡ some content → Kept (backed_up env t o files).1
    unfolding backed_up
    backed_up-self none files e = cc e
    backed_up-self (some c) files e =
        rw (sym (ap (content_or c) e))
          (written-In_self (backup_file t c) (without_name (tmp_path env.stamp t) files))

    backup_all-Kept :
        (ts : List Codes) (s f : ℕ) (files : List File)
        → In t ts ⊎ Kept files
        → Kept (backup_all env ts s f files).2
    unfolding backup_all backup_tenant
    backup_all-Kept [] s f files (inl i) = absurd i
    backup_all-Kept [] s f files (inr i) = i
    backup_all-Kept (u ∷ ts) s f files h =
        let (done, files') = backed_up env u (env.export u) files in
        let go : In t ts ⊎ Kept files' = elim h [
          | inl (inl q) ↦ inr (
              subst (λ x. Kept (backed_up env x (env.export x) files).1) q
                (backed_up-self (env.export t) files exported))
          | inl (inr j) ↦ inl j
          | inr i ↦ inr (backed_up-Kept u (env.export u) files refl i)
        ] in
        elim (Bool-cases done) [
          | inl e ↦ rw e (backup_all-Kept ts (s + 1) f files' go)
          | inr e ↦ rw e (backup_all-Kept ts s (f + 1) files' go)
        ]

  backup_all-counts :
      (ts : List Codes) (s f : ℕ) (files : List File)
      → (backup_all env ts s f files).0 + (backup_all env ts s f files).1 ≡ s + f + length ts
  unfolding backup_all
  backup_all-counts [] s f files = omega arith
  backup_all-counts (u ∷ ts) s f files =
      let (done, files') = backup_tenant env u files in
      elim (Bool-cases done) [
        | inl e ↦ rw e (omega (arith, backup_all-counts ts (s + 1) f files'))
        | inr e ↦ rw e (omega (arith, backup_all-counts ts s (f + 1) files'))
      ]

  -- A pass counts each tenant once, as succeeded or as failed. If it prunes before the retention of
  -- its own files is over, each tenant whose export does not raise has its backup in the directory
  -- with what was exported; and no backup is left whose retention is over, except one that cannot
  -- be deleted, whether the tenant has a newer one or not.
  pub run_once-Pass :
      (retain_days : ℕ) (files : List File)
      → env.pruned_at ≤ env.now + retain_days * 86_400
      → (let (summary, left) = run_once env retain_days files in
          (summary.succeeded + summary.failed ≡ length env.tenants)
          × ((t content : Codes)
              → In t env.tenants
              → env.export t ≡ some content
              → In (backup_file t content) left)
          × ((f : File)
              → In f left
              → is_backup f.name ≡ true
              → (env.pruned_at ≤ f.mtime + retain_days * 86_400) ⊎ (env.locked f.name ≡ true)))
  unfolding run_once prune_old_backups is_pruned
  run_once-Pass retain_days files h =
      let files' = (backup_all env env.tenants 0 0 files).2 in
      (
        omega (arith, backup_all-counts env.tenants 0 0 files),
        λ t content i e.
            filter-In (λ f. not (is_pruned env retain_days f)) (backup_file t content) files'
              (backup_all-Kept t content e env.tenants 0 0 files (inl i)) (ground arith),
        λ f i b. left f b (In-filter (λ f. not (is_pruned env retain_days f)) f files' i).1,
      )
    where
      left :
          (f : File)
          → is_backup f.name ≡ true
          → not (is_pruned env retain_days f) ≡ true
          → (env.pruned_at ≤ f.mtime + retain_days * 86_400) ⊎ (env.locked f.name ≡ true)
      left f b n = elim (Bool-cases (env.locked f.name)) [
        | inl l ↦ inr l
        | inr l ↦ inl (ground arith)
      ]
