-- ===== src/BlockInFile/Execute/Settled.antt =====
-- internal/modules/blockinfile/executor.go: a run of `Execute` after one that has written the file.
use dibra.Prelude.{
  Bool, true, false, ◌≡◌, refl, sym, ap, ◌∙◌, is_empty, ◌&&◌, if◌then◌else◌, List, Result, ok, err,
  err_not_ok,
}
use dibra.Paths.{bytes_eq}
use dibra.Paths.Laws.{bytes_eq_refl}
use dibra.LineInFile.Text.{Bytes, line_separator}
use dibra.LineInFile.Execute.{FileState, found}
use dibra.BlockInFile.Lines.{BlockEdit, put_content}
use dibra.BlockInFile.Lines.Again.{IsUsable}
use dibra.BlockInFile.Lines.Contents.{all_closed, put_content_again}
use dibra.BlockInFile.Execute.{
  Request, Response, Failure, Target, check, block_edit, attempt, back_up, keep_content,
  store_content, edit_content, edit_file, execute, validation_failed, backup_failed, write_failed,
  attributes_failed,
}

-- What a file system does: a file that was written is found, no directory, and read as written, and
-- owner, group and mode of a file are not its content.
pub record IsFileSystem {E W : Type 0} (target : Target E W) : Type 0 where
  pub stat-write :
      (path content : Bytes) (w w' : W)
      → target.write path content w ≡ (ok tt, w')
      → target.stat path w' ≡ found false
  pub read-write :
      (path content : Bytes) (w w' : W)
      → target.write path content w ≡ (ok tt, w')
      → target.read_file path w' ≡ ok content
  pub stat-set_attributes :
      (path owner group mode : Bytes) (w : W)
      → target.stat path (target.set_attributes path owner group mode w).1 ≡ target.stat path w
  pub read-set_attributes :
      (path owner group mode : Bytes) (w : W)
      → target.read_file path (target.set_attributes path owner group mode w).1
        ≡ target.read_file path w

module _ {E W : Type 0} (target : Target E W) where
  -- An operation before a result was a success.
  attempt-ok :
      {A B : Type 0} (failure : E → Failure E) (x : Result E A × W)
      (rest : A → W → Result (Failure E) B × W) (b : B) (w' : W)
      → attempt target failure x rest ≡ (ok b, w')
      → (a : A) × (w : W) × (x ≡ (ok a, w)) × (rest a w ≡ (ok b, w'))
  attempt-ok {A} {B} failure (ok a, w) rest b w' h = (a, w, refl, h)
  attempt-ok {A} {B} failure (err e, w) rest b w' h =
      err_not_ok (ap (λ (p : Result (Failure E) B × W). p.0) h)

  -- A store that succeeds has written the content and then set the attributes.
  store_content-ok :
      (req : Request) (state : FileState) (exists : Bool) (before content : Bytes) (w w' : W)
      (r : Response)
      → store_content target req state exists before content w ≡ (ok r, w')
      → (w2 : W) × (w3 : W) × (target.write req.path content w2 ≡ (ok tt, w3))
        × ((target.set_attributes req.path req.owner req.group req.mode w3).1 ≡ w')
  unfolding store_content
  store_content-ok req state exists before content w w' r h =
      let (_, w1, _, h1) =
        attempt-ok validation_failed
          (if is_empty req.validate
            then (ok tt, w)
            else target.run_validation req.validate content w)
          _ r w' h in
      let (_, w2, _, h2) =
        attempt-ok backup_failed (back_up target (req.backup && exists) req.path w1) _ r w' h1 in
      let (_, w3, q, h3) = attempt-ok write_failed (target.write req.path content w2) _ r w' h2 in
      let (_, w4, p, h4) =
        attempt-ok attributes_failed
          (target.set_attributes req.path req.owner req.group req.mode w3) _ r w' h3 in
      (
        w2,
        w3,
        q,
        ap (λ (x : Result E Bool × W). x.1) p
            ∙ ap (λ (x : Result (Failure E) Response × W). x.1) h4,
      )

  edit_content-settled :
      (req : Request) (state : FileState) (content : Bytes) (w : W)
      → put_content (block_edit target.compile req state content) content ≡ content
      → edit_content target req state true content w ≡ keep_content target req state w
  unfolding edit_content
  edit_content-settled req state content w h = rw (h, bytes_eq_refl content) refl

  -- A run on a file of a known content.
  execute_found :
      (req : Request) (state : FileState) (content : Bytes) (w : W)
      → check {E = E} req ≡ ok state
      → target.stat req.path w ≡ found false
      → target.read_file req.path w ≡ ok content
      → execute target req w ≡ edit_content target req state true content w
  unfolding execute edit_file
  execute_found req state content w c s r = rw (c, s, r, execute, edit_file) refl

  edit_content-store :
      (req : Request) (state : FileState) (exists : Bool) (content new : Bytes) (w : W)
      → put_content (block_edit target.compile req state content) content ≡ new
      → bytes_eq content new ≡ false
      → edit_content target req state exists content w
        ≡ store_content target req state exists content new w
  unfolding edit_content
  edit_content-store req state exists content new w h d = rw (h, d) refl

  block_edit-separator :
      (req : Request) (state : FileState) (x y : Bytes)
      → line_separator x ≡ line_separator y
      → block_edit target.compile req state x ≡ block_edit target.compile req state y
  unfolding block_edit
  block_edit-separator req state x y h = rw h refl

-- After a run that has written a content with the line ends of the old one, a run of the same request
-- only looks at owner, group and mode. The file system reads back what is written, and the request
-- has a block of lines with their ends, between markers that are neither blank nor, for the one that
-- begins, a later line of the block.
pub execute_again :
    {E W : Type 0} (target : Target E W) (req : Request) (state : FileState) (exists : Bool)
    (content new : Bytes) (body : List Bytes) (w w' : W) (r : Response)
    → IsFileSystem target
    → check {E = E} req ≡ ok state
    → IsUsable (block_edit target.compile req state content) body
    → all_closed (block_edit target.compile req state content).block_lines ≡ true
    → put_content (block_edit target.compile req state content) content ≡ new
    → line_separator new ≡ line_separator content
    → bytes_eq content new ≡ false
    → edit_content target req state exists content w ≡ (ok r, w')
    → execute target req w' ≡ keep_content target req state w'
execute_again target req state exists content new body w w' r laws c usable closed h s d run =
    let (w2, w3, q, p) =
      store_content-ok target req state exists content new w w' r
        (sym (edit_content-store target req state exists content new w h d) ∙ run) in
    let found_again : target.stat req.path w' ≡ found false =
      ap (λ x. target.stat req.path x) (sym p)
      ∙ laws.stat-set_attributes req.path req.owner req.group req.mode w3
      ∙ laws.stat-write req.path new w2 w3 q in
    let read_again : target.read_file req.path w' ≡ ok new =
      ap (λ x. target.read_file req.path x) (sym p)
      ∙ laws.read-set_attributes req.path req.owner req.group req.mode w3
      ∙ laws.read-write req.path new w2 w3 q in
    let e = block_edit target.compile req state content in
    let settled : put_content (block_edit target.compile req state new) new ≡ new =
      ap (λ (x : BlockEdit). put_content x new)
        (block_edit-separator target req state new content s)
      ∙ ap (λ (x : Bytes). put_content e x) (sym h)
      ∙ put_content_again e body content usable closed
      ∙ h in
    execute_found target req state new w' c found_again read_again
    ∙ edit_content-settled target req state new w' settled
