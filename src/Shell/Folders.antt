-- ===== src/Shell/Folders.antt =====
-- The commands of kernel/shell.c on directories and on the volume.
use rink_os.Prelude.{ℕ, ◌/◌, false, List, [], ◌∷◌, codes}
use rink_os.Print.{print_uint}
use rink_os.Machine.{C, ◌>>◌}
use rink_os.Files.Folders.{fs_mkdir, fs_rmdir, fs_chdir, fs_getcwd, fs_list, fs_debug_stats}
use rink_os.Shell.{fs_name_len, is_empty, skip_space, print_all, file_command}

-- `fs_list` takes no argument and always returns 0.
unfoldable pub cmd_ls : C (Unit {0})
cmd_ls m =
    (do
      print_all (codes "Contents of " ∷ fs_getcwd m.volume fs_name_len ∷ codes ":\n" ∷ [])
      file_command false [] fs_list [] λ text. text ∷ [])
      m

unfoldable pub cmd_pwd : C (Unit {0})
cmd_pwd m = print_all (fs_getcwd m.volume fs_name_len ∷ codes "\n" ∷ []) m

unfoldable pub cmd_rmdir : List ℕ → C (Unit {0})
cmd_rmdir args =
    let path = skip_space args in
    file_command (is_empty path) (codes "usage: rmdir <path>\n") (fs_rmdir path)
      (codes "rmdir failed (not a directory, not empty, or in use)\n" ∷ [])
      λ _. codes "Removed directory " ∷ path ∷ codes "\n" ∷ []

unfoldable pub cmd_df : C (Unit {0})
cmd_df m =
    let (root_used, free_clusters, total_clusters) = fs_debug_stats m.volume in
    print_all
      (codes "Root entries used: "
        ∷ print_uint root_used
        ∷ codes " / 128\n"
        ∷ codes "Free space: "
        ∷ print_uint (free_clusters / 2)
        ∷ codes " KB free of "
        ∷ print_uint (total_clusters / 2)
        ∷ [])
      m

unfoldable pub cmd_mkdir : List ℕ → C (Unit {0})
cmd_mkdir args =
    let path = skip_space args in
    file_command (is_empty path) (codes "usage: mkdir <path>\n") (fs_mkdir path)
      (codes "mkdir failed (already exists or path invalid)\n" ∷ [])
      λ _. codes "Created directory " ∷ path ∷ codes "\n" ∷ []

unfoldable pub cmd_cd : List ℕ → C (Unit {0})
cmd_cd args =
    let path = skip_space args in
    file_command (is_empty path) (codes "usage: cd <path>\n") (fs_chdir path)
      (codes "cd: no such directory: " ∷ path ∷ codes "\n" ∷ []) λ _. []
