-- ===== src/Spa/Tests.antt =====
-- The app of the documentation.
use actix_web_lab.Text.{text}
use actix_web_lab.Spa.{
  Spa, default, with_index_file, with_static_resources_mount, with_static_resources_location,
  finish, register, files_at, index_at, serve_index,
}
use actix_web_lab.Common.{ℕ, [], ◌∷◌, err, ◌≡◌, refl}

abbrev documented : Spa
documented =
    with_static_resources_location
      (with_static_resources_mount (with_index_file default (text "./examples/assets/spa.html"))
        (text "/static"))
      (text "./examples/assets")

documented_services :
    register (finish documented)
    ≡ files_at (record {
      mount_path = text "/static";
      serve_from = text "./examples/assets";
      folder_index = text "extremely-unlikely-to-exist-!@$%^&*.txt";
      default_index = text "./examples/assets/spa.html";
    })
      ∷ (index_at [] (text "./examples/assets/spa.html") ∷ [])
unfolding register finish default with_index_file with_static_resources_mount
    with_static_resources_location
documented_services = refl

-- A file that cannot be opened fails the request.
missing_index :
    serve_index {Request = ℕ} {NamedFile = ℕ} {Response = ℕ} {Error = ℕ}
      (λ name. err 404)
      (λ file req. file)
      1
      (text "./index.html")
    ≡ err 404
unfolding serve_index
missing_index = refl
