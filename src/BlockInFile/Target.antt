-- ===== src/BlockInFile/Target.antt =====
-- internal/modules/blockinfile/executor.go: what `Execute` does to the target, down to the calls of the
-- operating system. Errors are passed on without their texts; an id is a Go int, by its bits.
use dibra.Prelude.{
  ℕ, Bool, true, false, ◌++◌, [], ◌∷◌, ◌||◌, not, if◌then◌else◌, eqb, is_empty, Option, none, some,
  Result, ok, err,
}
use dibra.LineInFile.Text.{Bytes}
use dibra.LineInFile.Execute.{Stat}
use dibra.BlockInFile.Lines.{Finder}
use dibra.BlockInFile.Execute.{Target, Request, Response, Failure, execute}

pub record FileInfo : Type 0 where
  pub uid : ℕ
  pub gid : ℕ
  pub permissions : ℕ

-- The calls of os, os/exec, os/user, strconv, strings and regexp. `temp_path` is the name of the file
-- that os.CreateTemp makes, and `put_path` replaces each "%s" in a command.
pub record Os (E W : Type 0) : Type 0 where
  pub stat : Bytes → W → Stat E
  pub exists : Bytes → W → Bool
  pub lstat : Bytes → W → Result E FileInfo
  pub read_file : Bytes → W → Result E Bytes
  pub write_file : Bytes → Bytes → W → Result E (Unit {0}) × W
  pub rename : Bytes → Bytes → W → Result E (Unit {0}) × W
  pub make_parent : Bytes → W → Result E (Unit {0}) × W
  pub timestamp : W → Bytes
  pub create_temp : W → Result E Bytes × W
  pub write_temp : Bytes → Bytes → W → Result E (Unit {0}) × W
  pub remove : Bytes → W → W
  pub run_shell : Bytes → W → Result E (Unit {0}) × W
  pub put_path : Bytes → Bytes → Bytes
  pub chown : Bytes → ℕ → W → Result E (Unit {0}) × W
  pub chgrp : Bytes → ℕ → W → Result E (Unit {0}) × W
  pub chmod : Bytes → ℕ → W → Result E (Unit {0}) × W
  pub atoi : Bytes → Option ℕ
  pub lookup_user : Bytes → Result E ℕ
  pub lookup_group : Bytes → Result E ℕ
  pub parse_octal : Bytes → Result E ℕ
  pub compile : Bytes → Option Finder

-- ".tmp"
abbrev pub tmp_suffix : Bytes
tmp_suffix = b'.' ∷ b't' ∷ b'm' ∷ b'p' ∷ []

module _ {E W : Type 0} where
  abbrev pub then_do : {A B : Type 0} → Result E A × W → (A → W → Result E B × W) → Result E B × W
  then_do (ok a, w) rest = rest a w
  then_do (err e, w) rest = (err e, w)

  abbrev pub known : {A B : Type 0} → Result E A → W → (A → Result E B × W) → Result E B × W
  known (ok a) w rest = rest a
  known (err e) w rest = (err e, w)

module _ {E W : Type 0} (os : Os E W) where
  unfoldable pub atomic_write : Bytes → Bytes → W → Result E (Unit {0}) × W
  atomic_write dest content w =
      then_do (os.write_file (dest ++ tmp_suffix) content w)
        (λ _ w1. os.rename (dest ++ tmp_suffix) dest w1)

  unfoldable pub create_backup : Bytes → W → Result E Bytes × W
  create_backup path w =
      let backup_path = path ++ (b'.' ∷ (os.timestamp w ++ b'~' ∷ [])) in
      known (os.read_file path w) w
        (λ content. then_do (os.write_file backup_path content w) (λ _ w1. (ok backup_path, w1)))

  -- os.Remove, deferred
  abbrev pub without_temp : Bytes → Result E (Unit {0}) × W → Result E (Unit {0}) × W
  without_temp name (r, w) = (r, os.remove name w)

  unfoldable pub validate_content : Bytes → Bytes → W → Result E (Unit {0}) × W
  validate_content command content w = then_do (os.create_temp w) (λ name w1. without_temp name (
      then_do (os.write_temp name content w1) (λ _ w2. os.run_shell (os.put_path command name) w2)))

  unfoldable pub lookup_uid : Bytes → Result E ℕ
  lookup_uid name = elim (os.atoi name) [ some uid ↦ ok uid | none ↦ os.lookup_user name ]

  unfoldable pub lookup_gid : Bytes → Result E ℕ
  lookup_gid name = elim (os.atoi name) [ some gid ↦ ok gid | none ↦ os.lookup_group name ]

  -- The change of one attribute, if it has another value; whether it had.
  abbrev pub change_if : Bool → (W → Result E (Unit {0}) × W) → W → Result E Bool × W
  change_if same change w =
      if same then (ok false, w) else then_do (change w) (λ _ w1. (ok true, w1))

  unfoldable pub set_owner : Bytes → Bytes → W → Result E Bool × W
  unfolding lookup_uid
  set_owner path owner w =
      if is_empty owner
      then (ok false, w)
      else known (lookup_uid owner) w (λ uid.
        known (os.lstat path w) w (λ info. change_if (eqb info.uid uid) (os.chown path uid) w))

  unfoldable pub set_group : Bytes → Bytes → W → Result E Bool × W
  unfolding lookup_gid
  set_group path group w =
      if is_empty group
      then (ok false, w)
      else known (lookup_gid group) w (λ gid.
        known (os.lstat path w) w (λ info. change_if (eqb info.gid gid) (os.chgrp path gid) w))

  unfoldable pub set_mode : Bytes → Bytes → W → Result E Bool × W
  set_mode path mode w =
      if is_empty mode
      then (ok false, w)
      else known (os.parse_octal mode) w (λ permissions.
        known (os.lstat path w) w
          (λ info. change_if (eqb info.permissions permissions) (os.chmod path permissions) w))

  unfoldable pub set_attributes_if_different : Bytes → Bytes → Bytes → Bytes → W → Result E Bool × W
  unfolding set_owner set_group set_mode
  set_attributes_if_different path owner group mode w =
      if not (os.exists path w)
      then (ok false, w)
      else then_do (set_owner path owner w) (λ a w1.
        then_do (set_group path group w1)
          (λ b w2. then_do (set_mode path mode w2) (λ c w3. (ok (a || b || c), w3))))

  abbrev pub target_of : Target E W
  target_of = record {
    stat = os.stat;
    read_file = os.read_file;
    make_parent = os.make_parent;
    compile = os.compile;
    run_validation = validate_content;
    make_backup = create_backup;
    write = atomic_write;
    set_attributes = set_attributes_if_different;
  }

  -- Execute on the operating system.
  unfoldable pub execute_on : Request → W → Result (Failure E) Response × W
  execute_on req w = execute target_of req w
