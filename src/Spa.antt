-- ===== src/Spa.antt =====
-- actix-web-lab/src/spa.rs: what a single-page app registers, and how its index is served. The file
-- service is actix-files', so that here it is what it was built with; opening a file and making a
-- response of it are parameters.
mod Tests
use actix_web_lab.Text.{Text, text}
use actix_web_lab.Common.{List, [], ◌∷◌, Option, none, some, Result, ok, err, ◌>>=◌, ◌≡◌, refl, map}

pub record Spa : Type 0 where
  pub index_file : Text
  pub static_resources_mount : Text
  pub static_resources_location : Text

unfoldable pub default : Spa
default = record {
  index_file = text "./index.html";
  static_resources_mount = text "/";
  static_resources_location = text "./";
}

unfoldable pub with_index_file : Spa → Text → Spa
with_index_file spa index_file = record spa { index_file = index_file }

unfoldable pub with_static_resources_mount : Spa → Text → Spa
with_static_resources_mount spa mount = record spa { static_resources_mount = mount }

unfoldable pub with_static_resources_location : Spa → Text → Spa
with_static_resources_location spa location = record spa { static_resources_location = location }

-- `Files`: where it is mounted, the folder that it serves, the index that it looks for in a folder, and
-- the index of the app, which its default handler serves.
pub record Files : Type 0 where
  pub mount_path : Text
  pub serve_from : Text
  pub folder_index : Text
  pub default_index : Text

pub record SpaService : Type 0 where
  pub index_file : Text
  pub files : Files

unfoldable pub finish : Spa → SpaService
finish spa = record {
  index_file = spa.index_file;
  files = record {
    mount_path = spa.static_resources_mount;
    serve_from = spa.static_resources_location;
    folder_index = text "extremely-unlikely-to-exist-!@$%^&*.txt";
    default_index = spa.index_file;
  };
}

-- What is registered with the app, in this order: the files, then the index under a root prefix.
pub data Registered : Type 0 where
  files_at : Files → Registered
  index_at : (root_prefix index_file : Text) → Registered

unfoldable pub register : SpaService → List Registered
register service = files_at service.files ∷ (index_at [] service.index_file ∷ [])

-- `serve_index`, without its awaiting
unfoldable pub serve_index :
    {Request NamedFile Response Error : Type 0}
    → (Text → Result Error NamedFile)
    → (NamedFile → Request → Response)
    → Request
    → Text
    → Result Error (Request × Response)
serve_index open_file into_response req index_file =
    open_file index_file >>= (λ file. ok (req, into_response file req))

-- The index that a registered service falls back to
abbrev pub index_of : Registered → Text
index_of (files_at files) = files.default_index
index_of (index_at root_prefix index_file) = index_file

-- Both of them fall back to the file that was configured.
pub map-register :
    (spa : Spa) → map index_of (register (finish spa)) ≡ spa.index_file ∷ (spa.index_file ∷ [])
unfolding register finish
map-register spa = refl
