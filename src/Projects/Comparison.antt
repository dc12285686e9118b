-- ===== src/Projects/Comparison.antt =====
-- PROJECTS and DEFAULT_PROJECTS of scripts/run_oss_asanmm_comparison.py: the projects of the batch with
-- other builds for some, and OpenSSL.
use desan.Prelude.{false, some, none, List, [], ◌∷◌, ◌++◌, Dict, insert, nat_eq, list_eq}
use desan.Py.Text.{Str, codes}
use desan.Driver.{Project}
use desan.Projects.{projects, bzip2, coreutils, libvpx, zstd}

abbrev pub bzip2_comparison : Project
bzip2_comparison = record bzip2 {
  build = some (codes "make -j\"$JOBS\" CC=\"$CC\" CFLAGS=\"$CFLAGS\" LDFLAGS=\"-no-pie\" bzip2");
}

abbrev pub coreutils_comparison : Project
coreutils_comparison = record coreutils {
  build = some (
      codes "./configure CC=\"$CC\" CFLAGS=\"$CFLAGS\" --disable-nls "
      ++ codes "--enable-no-install-program=stdbuf && gen_headers=\"$(awk -F: "
      ++ codes "'/^lib\\/.*\\.h:/{print $1}' Makefile | sort -u)\" && make $gen_headers "
      ++ codes "src/version.h && sed -i '/#include <string.h>/a #include "
      ++ codes "\"setlocale_null.h\"' lib/hard-locale.c && make -j\"$JOBS\" src/wc "
      ++ codes "src/sort");
}

abbrev pub libvpx_comparison : Project
libvpx_comparison = record libvpx {
  build = some (
      codes "LDFLAGS= CC=\"$CC\" CXX=\"$CXX\" ./configure --disable-examples "
      ++ codes "--disable-unit-tests --disable-docs --disable-install-docs "
      ++ codes "--disable-optimizations --disable-vp9-highbitdepth "
      ++ codes "--target=generic-gnu && LDFLAGS= make -j\"$JOBS\" libvpx.a");
}

abbrev pub zstd_comparison : Project
zstd_comparison = record zstd {
  build = some (codes "make -j\"$JOBS\" CC=\"$CC\" CFLAGS=\"$CFLAGS\" ZSTD_NO_ASM=1 zstd");
}

abbrev pub openssl_comparison : Project
openssl_comparison = record {
  archive = none;
  repo = some (codes "https://github.com/openssl/openssl.git");
  ref = codes "openssl-3.3.2";
  submodules = false;
  build = some (
      codes "CC=\"$CC\" ./Configure linux-x86_64 no-shared no-module no-tests no-asm "
      ++ codes "-O0 -g -fno-omit-frame-pointer && make -j\"$JOBS\" build_sw");
  artifact = codes "apps/openssl";
  run =
      codes "for i in $(seq 1 \"$LOOPS\"); do \"$APP\" dgst -sha256 \"$BENCH/input.txt\" "
      ++ codes ">/dev/null; \"$APP\" enc -aes-256-cbc -nosalt -K "
      ++ codes "000102030405060708090a0b0c0d0e0f101112131415161718191a1b1c1d1e1f -iv "
      ++ codes "000102030405060708090a0b0c0d0e0f -in \"$BENCH/input.txt\" -out "
      ++ codes "\"$BENCH/out.enc\" >/dev/null; rm -f \"$BENCH/out.enc\"; done";
}

unfoldable pub comparison_projects : Dict Str Project
unfolding insert
comparison_projects = insert (codes "openssl") openssl_comparison (
    insert (codes "zstd") zstd_comparison (
      insert (codes "libvpx") libvpx_comparison (
        insert (codes "coreutils") coreutils_comparison
          (insert (codes "bzip2") bzip2_comparison projects))))

abbrev pub default_projects : List Str
default_projects =
    codes "bzip2"
    ∷ codes "capstone"
    ∷ codes "coreutils"
    ∷ codes "curl"
    ∷ codes "duktape"
    ∷ codes "flac"
    ∷ codes "grep"
    ∷ codes "gzip"
    ∷ codes "imagemagick"
    ∷ codes "libpng"
    ∷ codes "libvpx"
    ∷ codes "lz4"
    ∷ codes "make"
    ∷ codes "openssl"
    ∷ codes "redis"
    ∷ codes "tar"
    ∷ codes "xz"
    ∷ codes "zlib"
    ∷ codes "zopfli"
    ∷ codes "zstd"
    ∷ []
