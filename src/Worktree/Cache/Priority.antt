-- ===== src/Worktree/Cache/Priority.antt =====
-- `content_priority` of crates/worktree/src/lib.rs.
use git_lazy_mount.Prelude.{
  ℕ, ◌+◌, ◌-◌, Bool, false, ◌||◌, ◌&&◌, Option, none, some, List, [], ◌∷◌, Bytes, codes, bytes_eq,
  elem, length, take, drop, leb, if◌then◌else◌,
}

abbrev skipped : List Bytes
skipped =
    codes ".png"
    ∷ codes ".jpg"
    ∷ codes ".jpeg"
    ∷ codes ".gif"
    ∷ codes ".webp"
    ∷ codes ".bmp"
    ∷ codes ".tiff"
    ∷ codes ".ico"
    ∷ codes ".pdf"
    ∷ codes ".zip"
    ∷ codes ".tar"
    ∷ codes ".gz"
    ∷ codes ".bz2"
    ∷ codes ".xz"
    ∷ codes ".zst"
    ∷ codes ".7z"
    ∷ codes ".wasm"
    ∷ codes ".a"
    ∷ codes ".o"
    ∷ codes ".so"
    ∷ codes ".dylib"
    ∷ codes ".dll"
    ∷ codes ".exe"
    ∷ codes ".bin"
    ∷ codes ".class"
    ∷ codes ".jar"
    ∷ codes ".mp3"
    ∷ codes ".mp4"
    ∷ codes ".mov"
    ∷ codes ".wav"
    ∷ codes ".woff"
    ∷ codes ".woff2"
    ∷ codes ".ttf"
    ∷ codes ".otf"
    ∷ codes ".eot"
    ∷ []

abbrev manifests : List Bytes
manifests =
    codes "cargo.toml"
    ∷ codes "cargo.lock"
    ∷ codes "package.json"
    ∷ codes "package-lock.json"
    ∷ codes "go.mod"
    ∷ codes "go.sum"
    ∷ codes "pyproject.toml"
    ∷ codes "requirements.txt"
    ∷ codes "makefile"
    ∷ codes "pom.xml"
    ∷ codes "build.gradle"
    ∷ codes "tsconfig.json"
    ∷ codes "setup.py"
    ∷ []

abbrev sources : List Bytes
sources =
    codes ".rs"
    ∷ codes ".go"
    ∷ codes ".ts"
    ∷ codes ".tsx"
    ∷ codes ".js"
    ∷ codes ".jsx"
    ∷ codes ".mjs"
    ∷ codes ".cjs"
    ∷ codes ".py"
    ∷ codes ".c"
    ∷ codes ".h"
    ∷ codes ".cc"
    ∷ codes ".cpp"
    ∷ codes ".hpp"
    ∷ codes ".cxx"
    ∷ codes ".java"
    ∷ codes ".rb"
    ∷ codes ".sh"
    ∷ codes ".bash"
    ∷ codes ".toml"
    ∷ codes ".yaml"
    ∷ codes ".yml"
    ∷ codes ".json"
    ∷ codes ".md"
    ∷ codes ".txt"
    ∷ codes ".proto"
    ∷ codes ".sql"
    ∷ codes ".css"
    ∷ codes ".scss"
    ∷ codes ".html"
    ∷ codes ".kt"
    ∷ codes ".swift"
    ∷ codes ".scala"
    ∷ codes ".php"
    ∷ codes ".lua"
    ∷ codes ".ex"
    ∷ codes ".exs"
    ∷ []

-- `to_ascii_lowercase`.
lower_byte : ℕ → ℕ
lower_byte c = if leb b'A' c && leb c b'Z' then c + 32 else c

unfoldable pub lowercase : Bytes → Bytes
unfolding lower_byte
lowercase [] = []
lowercase (c ∷ cs) = lower_byte c ∷ lowercase cs

unfoldable pub has_prefix : Bytes → Bytes → Bool
has_prefix prefix text = bytes_eq (take (length prefix) text) prefix

unfoldable pub ends_with : Bytes → Bytes → Bool
ends_with suffix text =
    leb (length suffix) (length text) && bytes_eq (drop (length text - length suffix) text) suffix

any_end : List Bytes → Bytes → Bool
unfolding ends_with
any_end [] text = false
any_end (s ∷ ss) text = ends_with s text || any_end ss text

tier_of : Bytes → Option ℕ
unfolding any_end has_prefix
tier_of lower =
    if any_end skipped lower
    then none
    else if elem lower manifests
        || has_prefix (codes "readme") lower
        || ends_with (codes ".lock") lower
    then some 0
    else if any_end sources lower
    then some 1
    else some 2

unfoldable pub content_priority : Bytes → Option ℕ
unfolding tier_of
content_priority name = tier_of (lowercase name)
