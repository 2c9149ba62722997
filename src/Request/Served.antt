-- ===== src/Request/Served.antt =====
-- The stages put together: deserialize_request_options does what the request means.
use employee_database.Prelude.{
  ℕ, ◌≡◌, refl, ap, ◌∙◌, Bool, true, false, Option, none, some, List, [], ◌++◌, length,
  if◌then◌else◌,
}
use employee_database.Memory.{Block, Allocator}
use employee_database.Memory.Cursor.{At}
use employee_database.Employee.Directory.{Directory}
use employee_database.Disk.{File, IoResult, after, pure}
use employee_database.Request.{
  Work, list_stage, update_stage, delete_stage, delete_and_list, deserialize_request_options,
}
use employee_database.Request.Search.{first_is}
use employee_database.Request.Database.{Serves, IsDirectory}
use employee_database.Request.Meaning.{
  Request, request_bytes, IsRequest, added, updated, deleted, list_bytes, delete_bytes,
  update_bytes, Reply, serve_list, serve_delete, proceed, serve, add_bytes, reply_bytes, reply_size,
  IsDelete,
}
use employee_database.Request.Stages.{Next, Ends, add_stage-added}
use employee_database.Request.Update.{update_stage-updated}
use employee_database.Request.Delete.{delete_stage-deleted}
use employee_database.Request.Answer.{Replies, list_stage-Replies}

first_is-list : (l : Bool) → first_is b'd' (list_bytes l) ≡ false
first_is-list true = refl
first_is-list false = refl

first_is-delete :
    (d : Option (List ℕ)) (l : Bool) → first_is b'u' (delete_bytes d ++ list_bytes l) ≡ false
first_is-delete none true = refl
first_is-delete none false = refl
first_is-delete (some name) l = refl

first_is-update :
    (u : Option (List ℕ × ℕ)) (d : Option (List ℕ)) (l : Bool)
    → first_is b'a' (update_bytes u ++ (delete_bytes d ++ list_bytes l)) ≡ false
first_is-update none none true = refl
first_is-update none none false = refl
first_is-update none (some name) l = refl
first_is-update (some u) d l = refl

-- A stage that kept the response only moves the start.
Replies-from :
    (p : Directory × Reply) (w v : Work) (r : IoResult Work)
    → v.response_buf ≡ w.response_buf
    → v.response_buf_size ≡ w.response_buf_size
    → Replies p v r
    → Replies p w r
Replies-from p w v r b n (w', g, run, h) = (
  w',
  g,
  run,
  record {
    serves = h.serves;
    response = h.response ∙ ap (λ b. reply_bytes b p.1) b;
    size = h.size ∙ ap (λ n. reply_size n p.1) n;
  },
)

-- A stage that may have returned, and what follows it otherwise.
after-Ends :
    (buf : Block) (es : Directory) (rest : Block) (w : Work) (k : Work → File → IoResult Work)
    (next : Directory → Directory × Reply) (o : Option Directory) (r : IoResult (Work × Bool))
    → ((ds : Directory) (v : Work) (g : File)
        → Next buf ds rest w v g
        → Replies (next ds) v (k v g))
    → Ends buf es rest w o r
    → Replies (proceed next es o) w (after r (λ q. if q.1 then pure q.0 else k q.0))
after-Ends buf es rest w k next none r go (w', g, run, h) =
    (w', g, rw run, record { serves = h.serves; response = h.response; size = h.size })
after-Ends buf es rest w k next (some ds) r go (v, g, run, h) =
    rw run (Replies-from (next ds) w v (k v g) h.response h.size (go ds v g h))

module _ (m : Allocator) (granted : (n : ℕ) → m.can_grow n ≡ true) (buf : Block) where
  delete_and_list-Replies :
      (d : Option (List ℕ)) (l : Bool) (es : Directory) (w : Work) (f : File)
      → IsDelete d
      → Serves es w f
      → At w.cursor (delete_bytes d ++ list_bytes l) buf
      → length w.response_buf ≡ 9
      → Replies (serve_delete d l es) w (delete_and_list m buf (length buf) w f)
  unfolding delete_and_list
  delete_and_list-Replies d l es w f i s a nine =
      after-Ends buf es (list_bytes l) w (list_stage m buf (length buf)) (serve_list l)
        (deleted d es) (delete_stage m buf (length buf) w f)
        (λ ds v g n.
          list_stage-Replies m granted buf l ds v g n.serves n.at (ap length n.response ∙ nine))
        (delete_stage-deleted m buf d (list_bytes l) es w f (first_is-list l) i s a nine)

  -- If no allocation is refused and every system call on the file succeeds in full, and array,
  -- header and file hold one well-formed directory, which with the added entry still fits 32 bits,
  -- then on the bytes of any request with well-formed options deserialize_request_options returns:
  -- array, header and file hold the directory that the request means (the options in the order add,
  -- update, delete, list; a missing name ends the request, with the edits before it done), and the
  -- response of 9 bytes has become the reply, with the flag 1, or with the flag 0 and a length of
  -- zero, or with the flag 0, the length and the rows of the directory.
  pub deserialize_request_options-serve :
      (r : Request) (es : Directory) (w : Work) (f : File)
      → buf ≡ request_bytes r
      → IsRequest r
      → Serves es w f
      → IsDirectory (added r.add es)
      → length w.response_buf ≡ 9
      → Replies (serve r es) w (deserialize_request_options m buf (length buf) w f)
  unfolding deserialize_request_options
  deserialize_request_options-serve r es w f whole i s d nine =
      let last = delete_bytes r.delete ++ list_bytes r.list in
      let rest = update_bytes r.update ++ last in
      let w₀ : Work = record w { cursor = 0 } in
      let s₀ : Serves es w₀ f = record {
        spare = s.spare;
        array = s.array;
        header = s.header;
        directory = s.directory;
        saved = s.saved;
      } in
      let start : At 0 (add_bytes r.add ++ rest) buf = record {
        front = [];
        bytes = whole;
        offset = refl;
      } in
      let (w₁, f₁, run, n) =
        add_stage-added m granted buf r.add rest es w₀ f (first_is-update r.update r.delete r.list)
          s₀ start d in
      let nine₁ = ap length n.response ∙ nine in
      rw run (
        Replies-from (serve r es) w w₁ _ n.response n.size (
          after-Ends buf (added r.add es) last w₁ (delete_and_list m buf (length buf))
            (serve_delete r.delete r.list) (updated r.update (added r.add es))
            (update_stage m buf (length buf) w₁ f₁)
            (λ ds v g k.
              delete_and_list-Replies r.delete r.list ds v g i.delete k.serves k.at
                (ap length k.response ∙ nine₁))
            (update_stage-updated m buf r.update last (added r.add es) w₁ f₁
              (first_is-delete r.delete r.list) i.update n.serves n.at nine₁)))
