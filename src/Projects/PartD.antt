-- ===== src/Projects/PartD.antt =====
-- Entries of PROJECTS of scripts/run_oss_batch_after_read_check_elimination.py: from wget to
-- libwebp.
use desan.Prelude.{false, none, some, [], ◌++◌}
use desan.Py.Text.{codes}
use desan.Driver.{Project}

abbrev pub wget : Project
wget = record {
  archive = some (codes "https://ftp.gnu.org/gnu/wget/wget-1.24.5.tar.gz");
  repo = none;
  ref = [];
  submodules = false;
  build = some (
      codes "./configure CC=\"$CC\" CFLAGS=\"$CFLAGS\" --disable-nls --without-ssl "
      ++ codes "--disable-iri --disable-pcre --disable-ntlm --disable-opie "
      ++ codes "--disable-digest && make -j\"$JOBS\"");
  artifact = codes "src/wget";
  run = codes "for i in $(seq 1 \"$LOOPS\"); do \"$APP\" --version >/dev/null; done";
}

abbrev pub nginx : Project
nginx = record {
  archive = some (codes "http://nginx.org/download/nginx-1.26.1.tar.gz");
  repo = none;
  ref = [];
  submodules = false;
  build = some (
      codes "./configure --with-cc=\"$CC\" --with-cc-opt=\"$CFLAGS\" "
      ++ codes "--without-http_rewrite_module --without-http_gzip_module "
      ++ codes "--without-pcre --without-mail_pop3_module --without-mail_imap_module "
      ++ codes "--without-mail_smtp_module && make -j\"$JOBS\"");
  artifact = codes "objs/nginx";
  run = codes "for i in $(seq 1 \"$LOOPS\"); do \"$APP\" -v >/dev/null 2>&1; done";
}

abbrev pub redis : Project
redis = record {
  archive = none;
  repo = some (codes "https://github.com/redis/redis.git");
  ref = codes "7.2.5";
  submodules = false;
  build = some (
      codes "make -j1 CC=\"$CC\" CFLAGS=\"$CFLAGS\" OPTIMIZATION=\"-O0\" MALLOC=libc "
      ++ codes "BUILD_TLS=no redis-server redis-cli");
  artifact = codes "src/redis-server";
  run =
      codes "for i in $(seq 1 \"$LOOPS\"); do \"$APP\" --version >/dev/null; "
      ++ codes "\"$BUILD/src/redis-cli\" --version >/dev/null; done";
}

abbrev pub c_ares : Project
c_ares = record {
  archive = none;
  repo = some (codes "https://github.com/c-ares/c-ares.git");
  ref = codes "v1.29.0";
  submodules = false;
  build = some (
      codes "cmake -S . -B build -G Ninja -DCMAKE_C_COMPILER=\"$CC\" "
      ++ codes "-DCMAKE_C_FLAGS=\"$CFLAGS\" -DCARES_SHARED=OFF -DCARES_STATIC=ON "
      ++ codes "-DCARES_BUILD_TESTS=OFF -DCARES_BUILD_TOOLS=ON && cmake --build build "
      ++ codes "-j\"$JOBS\"");
  artifact = codes "build/bin/adig";
  run = codes "for i in $(seq 1 \"$LOOPS\"); do \"$APP\" -h >/dev/null 2>&1 || true; done";
}

abbrev pub nghttp2 : Project
nghttp2 = record {
  archive =
      some (
        codes "https://github.com/nghttp2/nghttp2/releases/download/v1.62.1/nghttp2-1.62.1.tar.xz");
  repo = none;
  ref = [];
  submodules = false;
  build = some (
      codes "./configure CC=\"$CC\" CFLAGS=\"$CFLAGS\" --disable-shared "
      ++ codes "--enable-static --disable-threads --disable-python-bindings "
      ++ codes "--disable-examples --disable-hpack-tools --without-libxml2 "
      ++ codes "--without-jemalloc --without-zlib --without-systemd --without-cunit "
      ++ codes "&& make -j\"$JOBS\"");
  artifact = codes "src/nghttp";
  run = codes "for i in $(seq 1 \"$LOOPS\"); do \"$APP\" --version >/dev/null; done";
}

abbrev pub libpng : Project
libpng = record {
  archive = some (codes "https://download.sourceforge.net/libpng/libpng-1.6.43.tar.xz");
  repo = none;
  ref = [];
  submodules = false;
  build = some (
      codes "./configure CC=\"$CC\" CFLAGS=\"$CFLAGS\" --disable-shared "
      ++ codes "--enable-static && make -j\"$JOBS\" pngfix");
  artifact = codes "pngfix";
  run =
      codes "for i in $(seq 1 \"$LOOPS\"); do \"$APP\" \"$BENCH/input.png\" >/dev/null "
      ++ codes "2>&1 || true; done";
}

abbrev pub libjpeg_turbo : Project
libjpeg_turbo = record {
  archive =
      some (codes "https://github.com/libjpeg-turbo/libjpeg-turbo/archive/refs/tags/3.0.3.tar.gz");
  repo = none;
  ref = [];
  submodules = false;
  build = some (
      codes "cmake -S . -B build -G Ninja -DCMAKE_C_COMPILER=\"$CC\" "
      ++ codes "-DCMAKE_CXX_COMPILER=\"$CXX\" -DCMAKE_C_FLAGS=\"$CFLAGS\" "
      ++ codes "-DCMAKE_CXX_FLAGS=\"$CXXFLAGS\" -DENABLE_SHARED=OFF -DWITH_SIMD=OFF "
      ++ codes "-DWITH_TURBOJPEG=OFF && cmake --build build --target cjpeg-static "
      ++ codes "djpeg-static -j\"$JOBS\"");
  artifact = codes "build/cjpeg-static";
  run =
      codes "for i in $(seq 1 \"$LOOPS\"); do \"$APP\" \"$BENCH/input.ppm\" "
      ++ codes ">\"$BENCH/input.jpg\"; \"$BUILD/build/djpeg-static\" \"$BENCH/input.jpg\" "
      ++ codes ">/dev/null; rm -f \"$BENCH/input.jpg\"; done";
}

abbrev pub giflib : Project
giflib = record {
  archive = none;
  repo = some (codes "https://github.com/mirrorer/giflib.git");
  ref = [];
  submodules = false;
  build = some (
      codes "autoreconf -fi && ./configure CC=\"$CC\" CFLAGS=\"$CFLAGS\" "
      ++ codes "--disable-shared --enable-static && make -j\"$JOBS\"");
  artifact = codes "util/gifbuild";
  run =
      codes "for i in $(seq 1 \"$LOOPS\"); do \"$APP\" -d \"$BENCH/input.gif\" "
      ++ codes ">\"$BENCH/out.gif\" 2>/dev/null || true; \"$BUILD/util/giftext\" "
      ++ codes "\"$BENCH/input.gif\" >/dev/null 2>&1 || true; rm -f \"$BENCH/out.gif\"; "
      ++ codes "done";
}

abbrev pub libwebp : Project
libwebp = record {
  archive = some (codes "https://github.com/webmproject/libwebp/archive/refs/tags/v1.4.0.tar.gz");
  repo = none;
  ref = [];
  submodules = false;
  build = some (
      codes "cmake -S . -B build -G Ninja -DCMAKE_C_COMPILER=\"$CC\" "
      ++ codes "-DCMAKE_CXX_COMPILER=\"$CXX\" -DCMAKE_C_FLAGS=\"$CFLAGS\" "
      ++ codes "-DCMAKE_CXX_FLAGS=\"$CXXFLAGS\" -DWEBP_BUILD_CWEBP=ON "
      ++ codes "-DWEBP_BUILD_DWEBP=ON -DWEBP_BUILD_GIF2WEBP=OFF "
      ++ codes "-DWEBP_BUILD_IMG2WEBP=OFF -DWEBP_BUILD_VWEBP=OFF "
      ++ codes "-DWEBP_BUILD_WEBPINFO=ON -DWEBP_BUILD_WEBPMUX=ON && cmake --build "
      ++ codes "build --target cwebp dwebp -j\"$JOBS\"");
  artifact = codes "build/cwebp";
  run =
      codes "for i in $(seq 1 \"$LOOPS\"); do \"$APP\" -quiet \"$BENCH/input.ppm\" -o "
      ++ codes "\"$BENCH/input.webp\"; \"$BUILD/build/dwebp\" \"$BENCH/input.webp\" -o "
      ++ codes "\"$BENCH/out.ppm\" >/dev/null; rm -f \"$BENCH/input.webp\" "
      ++ codes "\"$BENCH/out.ppm\"; done";
}
