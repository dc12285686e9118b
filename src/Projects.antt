-- ===== src/Projects.antt =====
-- PROJECTS of scripts/run_oss_batch_after_read_check_elimination.py, as a dictionary.
pub mod PartA
pub mod PartB
pub mod PartC
pub mod PartD
pub mod PartE
pub mod PartF
pub mod Comparison
use desan.Prelude.{Option, some, none, List, [], ◌∷◌, Dict}
use desan.Py.Text.{Str, codes}
use desan.Driver.{Project}
use desan.Projects.PartA.{ffmpeg, imagemagick, zlib, bzip2, gzip, xz, zstd, lz4, brotli}
use desan.Projects.PartB.{pigz, libdeflate, zopfli, xxhash, sqlite, lua, quickjs, duktape, jq, grep}
use desan.Projects.PartC.{
  sed, gawk, coreutils, findutils, diffutils, tar, m4, make, busybox, file, curl,
}
use desan.Projects.PartD.{
  wget, nginx, redis, c_ares, nghttp2, libpng, libjpeg_turbo, giflib, libwebp,
}
use desan.Projects.PartE.{
  libtiff, flac, x264, libvpx, libxml2, expat, pcre2, tree_sitter, capstone, wabt,
}
use desan.Projects.PartF.{libarchive, json_c, cjson}

abbrev pub projects : Dict Str Project
projects =
    (codes "ffmpeg", ffmpeg)
    ∷ (codes "imagemagick", imagemagick)
    ∷ (codes "zlib", zlib)
    ∷ (codes "bzip2", bzip2)
    ∷ (codes "gzip", gzip)
    ∷ (codes "xz", xz)
    ∷ (codes "zstd", zstd)
    ∷ (codes "lz4", lz4)
    ∷ (codes "brotli", brotli)
    ∷ (codes "pigz", pigz)
    ∷ (codes "libdeflate", libdeflate)
    ∷ (codes "zopfli", zopfli)
    ∷ (codes "xxhash", xxhash)
    ∷ (codes "sqlite", sqlite)
    ∷ (codes "lua", lua)
    ∷ (codes "quickjs", quickjs)
    ∷ (codes "duktape", duktape)
    ∷ (codes "jq", jq)
    ∷ (codes "grep", grep)
    ∷ (codes "sed", sed)
    ∷ (codes "gawk", gawk)
    ∷ (codes "coreutils", coreutils)
    ∷ (codes "findutils", findutils)
    ∷ (codes "diffutils", diffutils)
    ∷ (codes "tar", tar)
    ∷ (codes "m4", m4)
    ∷ (codes "make", make)
    ∷ (codes "busybox", busybox)
    ∷ (codes "file", file)
    ∷ (codes "curl", curl)
    ∷ (codes "wget", wget)
    ∷ (codes "nginx", nginx)
    ∷ (codes "redis", redis)
    ∷ (codes "c-ares", c_ares)
    ∷ (codes "nghttp2", nghttp2)
    ∷ (codes "libpng", libpng)
    ∷ (codes "libjpeg-turbo", libjpeg_turbo)
    ∷ (codes "giflib", giflib)
    ∷ (codes "libwebp", libwebp)
    ∷ (codes "libtiff", libtiff)
    ∷ (codes "flac", flac)
    ∷ (codes "x264", x264)
    ∷ (codes "libvpx", libvpx)
    ∷ (codes "libxml2", libxml2)
    ∷ (codes "expat", expat)
    ∷ (codes "pcre2", pcre2)
    ∷ (codes "tree-sitter", tree_sitter)
    ∷ (codes "capstone", capstone)
    ∷ (codes "wabt", wabt)
    ∷ (codes "libarchive", libarchive)
    ∷ (codes "json-c", json_c)
    ∷ (codes "cjson", cjson)
    ∷ []
