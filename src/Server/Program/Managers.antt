-- ===== src/Server/Program/Managers.antt =====
-- What the program answers with the file manager that `main` has not prepared.
use mathlib.Core.Path.{subst}
use simple_serv.Common.{ℕ, ◌≡◌, refl, sym, Option, none, some, [], ◌∷◌, ◌++◌, Bytes, codes}
use simple_serv.Common.Dict.{Dict, lookup}
use simple_serv.Common.Outcome.{Outcome, returns, throws, undefined, ◌>>=◌}
use simple_serv.Utility.StringParser.{value}
use simple_serv.Utility.FileSystem.{FileSystem}
use simple_serv.Utility.FileManager.{
  FileDescriptor, construct_file_descriptors, generate_encoded_files, get_file, cached_get_file,
  disk_get_file,
}
use simple_serv.Http.Status.{status_code_to_string}
use simple_serv.Http.Message.{HttpRequest, crlf, to_string}
use simple_serv.Http.Parser.{parse_http_request}
use simple_serv.Http.Handler.{prepare_response, handle}
use simple_serv.Server.Connection.{HttpConnection, sent, closed, handle_connection}
use simple_serv.Server.Program.{
  webdir, Program, new_manager, initial, with_descriptors, prepare_files, start, serve,
}

abbrev Keeps : Program → Option (Outcome (Program × FileSystem)) → Type 0
Keeps p (some (returns (q, fs))) = q.handler_manager ≡ p.handler_manager
Keeps p (some (throws e)) = Unit
Keeps p (some undefined) = Unit
Keeps p none = Unit

abbrev pub not_found_text : Bytes
not_found_text = codes "HTTP/1.1 404 Not Found" ++ (crlf ++ crlf)

module _ (compress : Bytes → ℕ → Option Bytes) where
  prepare_files-Keeps :
      (p : Program) (fs : FileSystem) (o : Option (Outcome (Dict FileDescriptor)))
      → Keeps p (prepare_files compress p fs o)
  prepare_files-Keeps p fs none = tt
  prepare_files-Keeps p fs (some (throws e)) = tt
  prepare_files-Keeps p fs (some undefined) = tt
  prepare_files-Keeps p fs (some (returns ds)) = go (generate_encoded_files compress ds fs)
    where
      go :
          (o : Outcome (Dict FileDescriptor × FileSystem))
          → Keeps p (some (o >>= with_descriptors compress p))
      go (returns (ds', fs')) = refl
      go (throws e) = tt
      go undefined = tt

  pub start-handler_manager :
      (fuel : ℕ) (fs fs' : FileSystem) (p q : Program)
      → start compress fuel fs p ≡ some (returns (q, fs'))
      → q.handler_manager ≡ p.handler_manager
  unfolding start
  start-handler_manager fuel fs fs' p q e = subst (Keeps p) e (
      prepare_files-Keeps p fs
        (construct_file_descriptors fuel fs webdir p.main_manager.file_descriptors))

pub new_manager-not_found :
    (fs : FileSystem) (str : Bytes) (r : HttpRequest)
    → parse_http_request str ≡ returns (value r)
    → handle fs str new_manager ≡ returns (some not_found_text, new_manager)
unfolding handle prepare_response get_file cached_get_file disk_get_file lookup to_string
    status_code_to_string
new_manager-not_found fs str r h = rw h

-- After the start of the program every connection whose request parses is answered with status 404
-- and closed, whatever the file system holds: the handler's file manager is not the one that main
-- prepares.
serve-not_found :
    (compress : Bytes → ℕ → Option Bytes) (fuel : ℕ) (fs fs' : FileSystem) (p : Program)
    (c : HttpConnection) (r : HttpRequest)
    → start compress fuel fs initial ≡ some (returns (p, fs'))
    → parse_http_request c.request ≡ returns (value r)
    → serve fs' c p ≡ returns (sent c.client_fd not_found_text ∷ closed c.client_fd ∷ [], p)
unfolding serve handle_connection
serve-not_found compress fuel fs fs' p c r started parsed =
    let unprepared = start-handler_manager compress fuel fs fs' initial p started in
    let handled =
      subst (λ m. handle fs' c.request m ≡ returns (some not_found_text, m)) (sym unprepared)
        (new_manager-not_found fs' c.request r parsed) in
    rw handled
